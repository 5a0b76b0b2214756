-- ===== src/Suggestion/Best.antt =====
-- The candidate that a suggestion is about: `_best_candidate` of kairos/suggestions.py.
use urim_platform.Base.{
  ◌≡◌, refl, ◌∙◌, inl, inr, true, List, [], ◌∷◌, arith, Bool-cases, All, In, All-In_self,
}
use urim_platform.Float.{Float, Laws, lt, le_refl}
use urim_platform.Response.{KairosMarketProbabilities}
use urim_platform.Suggestion.Model.{
  Candidate, signal_strength, strongest, best_candidate, first_candidate, further_candidates,
}

module _ {F : Type 0} ⦃fl : Float F⦄ where
  pub strongest-All :
      (P : Candidate F → Type 0) (best : Candidate F) (cs : List (Candidate F))
      → P best
      → All P cs
      → P (strongest best cs)
  unfolding strongest
  strongest-All P best [] p h = p
  strongest-All P best (c ∷ cs) p h =
      elim (Bool-cases (lt (signal_strength best) (signal_strength c))) [
        | inl more ↦ rw (more, strongest) (strongest-All P c cs h.0 h.1)
        | inr less ↦ rw (less, strongest) (strongest-All P best cs p h.1)
      ]

module _ {F : Type 0} ⦃fl : Float F⦄ (laws : Laws fl) where
  open laws use {le_trans, le_total}

  strongest-le :
      (best : Candidate F) (cs : List (Candidate F)) (top : Candidate F)
      → top ≡ strongest best cs
      → All (λ c. fl.le (signal_strength c) (signal_strength top) ≡ true) (best ∷ cs)
  unfolding strongest
  strongest-le best [] top e = (rw e (le_refl laws (signal_strength best)), tt)
  strongest-le best (c ∷ cs) top e =
      elim (Bool-cases (lt (signal_strength best) (signal_strength c))) [
        | inl more ↦
            let step : strongest best (c ∷ cs) ≡ strongest c cs = rw more refl in
            let (here, rest) = strongest-le c cs top (e ∙ step) in
            let up : fl.le (signal_strength best) (signal_strength c) ≡ true =
              ground (arith, more, le_total (signal_strength best) (signal_strength c)) in
            (le_trans _ _ _ up here, (here, rest))
        | inr less ↦
            let step : strongest best (c ∷ cs) ≡ strongest best cs = rw less refl in
            let (here, rest) = strongest-le best cs top (e ∙ step) in
            let up : fl.le (signal_strength c) (signal_strength best) ≡ true =
              ground (arith, less) in
            (here, (le_trans _ _ _ up here, rest))
      ]

  -- The candidate chosen is one of the nine, and none of the nine has a stronger signal.
  pub best_candidate_lem :
      (p : KairosMarketProbabilities F)
      → In (best_candidate p) (first_candidate p ∷ further_candidates p)
        × All
            (λ c. fl.le (signal_strength c) (signal_strength (best_candidate p)) ≡ true)
            (first_candidate p ∷ further_candidates p)
  unfolding best_candidate
  best_candidate_lem p =
      let self = All-In_self (first_candidate p ∷ further_candidates p) in
      (
        strongest-All (λ c. In c (first_candidate p ∷ further_candidates p)) (first_candidate p)
            (further_candidates p) self.0 self.1,
        strongest-le (first_candidate p) (further_candidates p) (best_candidate p) refl,
      )
