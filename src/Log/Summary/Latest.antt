-- ===== src/Log/Summary/Latest.antt =====
-- Which message the summary of a failed run picks.
use mathlib.Core.Option
use mathlib.Core.Path.{subst}
use nyanpasu_service.Prelude.{
  ◌++◌, ap, All-split, ◌∙◌, ◌⊎◌, ℕ, ◌≤◌, ◌<◌, ◌≡◌, ◌≢◌, inl, inr, none, some, List, [], ◌∷◌, ◌++◌,
  arith, Option-cases, All,
}
use nyanpasu_service.Log.Frame.{LogLevel, LogFrame, rank}
use nyanpasu_service.Log.Summary.{error_summary, max_level, find_last}

abbrev Below : ℕ → LogFrame → Type 0
Below n f = rank f.level < n

abbrev AtMost : LogLevel → LogFrame → Type 0
AtMost l f = rank f.level ≤ rank l

All-AtMost :
    (k l : LogLevel) (fs : List LogFrame) → rank k ≤ rank l → All (AtMost k) fs → All (AtMost l) fs
All-AtMost k l [] h a = tt
All-AtMost k l (f ∷ fs) h a = (omega (arith, a.0), All-AtMost k l fs h a.1)

All-Below-AtMost :
    (l : LogLevel) (fs : List LogFrame)
    → rank LogLevel.warning ≤ rank l
    → All (Below (rank LogLevel.warning)) fs
    → All (AtMost l) fs
All-Below-AtMost l [] h a = tt
All-Below-AtMost l (f ∷ fs) h a = (omega (arith, a.0), All-Below-AtMost l fs h a.1)

max_level-none : (fs : List LogFrame) → max_level fs ≡ none → All (Below (rank LogLevel.warning)) fs
unfolding max_level
max_level-none [] h = tt
max_level-none (f ∷ fs) h = (ground arith, max_level-none fs (ground arith))

abbrev IsMax : LogLevel → List LogFrame → Type 0
IsMax l fs = (rank LogLevel.warning ≤ rank l) × All (AtMost l) fs

max_level-IsMax : (fs : List LogFrame) (l : LogLevel) → max_level fs ≡ some l → IsMax l fs
unfolding max_level
max_level-IsMax [] l h = cc
max_level-IsMax (f ∷ fs) l h = elim (Option-cases (max_level fs)) [
  | inl no_more ↦
      let is_f : (rank LogLevel.warning ≤ rank f.level) × (f.level ≡ l) =
        (ground arith, ground arith) in
      subst (λ k. IsMax k (f ∷ fs)) is_f.1
        (is_f.0, (omega arith, All-Below-AtMost f.level fs is_f.0 (max_level-none fs no_more)))
  | inr (k, more) ↦
      let ih = max_level-IsMax fs k more in
      let facts : (rank LogLevel.warning ≤ rank l) × (rank f.level ≤ rank l) × (rank k ≤ rank l) =
        (ground arith, ground arith, ground arith) in
      (facts.0, (facts.1, All-AtMost k l fs facts.2 ih.1))
]

-- The level found occurs in the list.
max_level-found :
    (fs : List LogFrame) (l : LogLevel) → max_level fs ≡ some l → find_last l fs ≢ none
unfolding max_level find_last
max_level-found [] l h = cc
max_level-found (f ∷ fs) l h = elim (Option-cases (max_level fs)) [
  | inl no_more ↦ ground arith
  | inr (k, more) ↦ ground (arith, max_level-found fs k more, max_level-found fs l)
]

abbrev Other : LogLevel → LogFrame → Type 0
Other l g = rank g.level ≢ rank l

pub record LastAt (l : LogLevel) (fs : List LogFrame) (f : LogFrame) : Type 0 where
  pub before : List LogFrame
  pub after : List LogFrame
  pub splits : fs ≡ before ++ f ∷ after
  pub same_level : rank f.level ≡ rank l
  pub others : All (Other l) after

find_last-none : (l : LogLevel) (fs : List LogFrame) → find_last l fs ≡ none → All (Other l) fs
unfolding find_last
find_last-none l [] h = tt
find_last-none l (f ∷ fs) h = (ground arith, find_last-none l fs (ground arith))

find_last-LastAt :
    (l : LogLevel) (fs : List LogFrame) (f : LogFrame) → find_last l fs ≡ some f → LastAt l fs f
unfolding find_last
find_last-LastAt l [] f h = cc
find_last-LastAt l (g ∷ fs) f h = elim (Option-cases (find_last l fs)) [
  | inl no_more ↦
      let found : (g ≡ f) × (rank g.level ≡ rank l) = (ground arith, ground arith) in
      record {
        before = [];
        after = fs;
        splits = ap (λ x. x ∷ fs) found.0;
        same_level = subst (λ x. rank x.level ≡ rank l) found.0 found.1;
        others = find_last-none l fs no_more;
      }
  | inr (k, more) ↦
      let same : k ≡ f = ground arith in
      let ih = find_last-LastAt l fs f (more ∙ ap some same) in
      record {
        before = g ∷ ih.before;
        after = ih.after;
        splits = ap (λ xs. g ∷ xs) ih.splits;
        same_level = ih.same_level;
        others = ih.others;
      }
]

-- `f` is the latest of the most severe frames of `fs`.
pub record IsLatestWorst (fs : List LogFrame) (f : LogFrame) : Type 0 where
  pub before : List LogFrame
  pub after : List LogFrame
  pub splits : fs ≡ before ++ f ∷ after
  pub severe : rank LogLevel.warning ≤ rank f.level
  pub none_worse_before : All (λ g. rank g.level ≤ rank f.level) before
  pub none_as_bad_after : All (λ g. rank g.level < rank f.level) after

all_less :
    (l : LogLevel) (f : LogFrame) (fs : List LogFrame)
    → rank f.level ≡ rank l
    → All (AtMost l) fs
    → All (Other l) fs
    → All (λ g. rank g.level < rank f.level) fs
all_less l f [] e a o = tt
all_less l f (g ∷ fs) e a o = (omega (arith, a.0, o.0), all_less l f fs e a.1 o.1)

all-AtMost :
    (l : LogLevel) (f : LogFrame) (fs : List LogFrame)
    → rank f.level ≡ rank l
    → All (AtMost l) fs
    → All (λ g. rank g.level ≤ rank f.level) fs
all-AtMost l f [] e a = tt
all-AtMost l f (g ∷ fs) e a = (omega (arith, a.0), all-AtMost l f fs e a.1)

LastAt-IsLatestWorst :
    (l : LogLevel) (fs : List LogFrame) (f : LogFrame)
    → IsMax l fs
    → LastAt l fs f
    → IsLatestWorst fs f
LastAt-IsLatestWorst l fs f m h =
    let (before, rest) =
      All-split (AtMost l) h.before (f ∷ h.after) (subst (All (AtMost l)) h.splits m.1) in
    record {
      before = h.before;
      after = h.after;
      splits = h.splits;
      severe = omega (arith, m.0, h.same_level);
      none_worse_before = all-AtMost l f h.before h.same_level before;
      none_as_bad_after = all_less l f h.after h.same_level rest.1 h.others;
    }

-- The summary of a run's frames is the message of a frame at `Warning` or above with no worse
-- frame before it and none as bad after it; there is no summary exactly when every frame is below
-- `Warning`.
pub error_summary_latest :
    (fs : List LogFrame)
    → ((f : LogFrame) × (error_summary fs ≡ some f.message) × IsLatestWorst fs f)
      ⊎ ((error_summary fs ≡ none) × All (λ g. rank g.level < rank LogLevel.warning) fs)
unfolding error_summary
error_summary_latest fs = elim (Option-cases (max_level fs)) [
  | inl calm ↦ inr (rw (calm, error_summary), max_level-none fs calm)
  | inr (l, worst) ↦ elim (Option-cases (find_last l fs)) [
    | inl lost ↦ absurd (max_level-found fs l worst lost)
    | inr (f, found) ↦ inl (
      f,
      rw (worst, error_summary) (rw (found, Option.map)),
      LastAt-IsLatestWorst l fs f (max_level-IsMax fs l worst) (find_last-LastAt l fs f found),
    )
  ]
]
