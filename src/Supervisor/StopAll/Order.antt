-- ===== src/Supervisor/StopAll/Order.antt =====
-- internal/supervisor/orchestrator.go: the order in which stopAll takes the services down.
use zpinit.Base.{String, ◌≡◌, ap, ◌∙◌, false, List, [], ◌∷◌, ◌++◌, map, Bool-cases, inl, inr}
use zpinit.Base.Texts.{text_ltb}
use zpinit.Base.TextOrder.{text_ltb_asym}
use zpinit.Supervisor.Runner.State.{Runner, is_terminal}
use zpinit.Supervisor.Replica.Expand.{All}
use zpinit.Supervisor.Diff.{file_of}
use zpinit.Supervisor.StopAll.{StopEvent, signals, awaits, live, stop_runner_group, stop_groups}

abbrev pub runner_at : StopEvent → Runner
runner_at (signals r) = r
runner_at (awaits r) = r

abbrev pub file_at : StopEvent → String
file_at e = file_of (runner_at e)

-- no event of the list is of a later file than e
abbrev pub NoneLater : StopEvent → List StopEvent → Type 0
NoneLater e l = All (λ (f : StopEvent). text_ltb (file_at e) (file_at f) ≡ false) l

abbrev pub IsDescending : List StopEvent → Type 0
IsDescending [] = Unit
IsDescending (e ∷ rest) = NoneLater e rest × IsDescending rest

pub All-append {ℓ κ} :
    {A : Type ℓ} (P : A → Type κ) (xs ys : List A) → All P xs → All P ys → All P (xs ++ ys)
All-append P [] ys h k = k
All-append P (x ∷ xs) ys h k = (h.0, All-append P xs ys h.1 k)

pub append-IsDescending :
    (a b : List StopEvent)
    → IsDescending a
    → IsDescending b
    → All (λ (e : StopEvent). NoneLater e b) a
    → IsDescending (a ++ b)
append-IsDescending [] b h k c = k
append-IsDescending (e ∷ a) b h k c = (All-append _ a b h.0 c.0, append-IsDescending a b h.1 k c.1)

module _ (at : Runner → Runner) (Q : String → Type 0) where
  abbrev OfFile : Runner → Type 0
  OfFile r = Q (file_of r)

  abbrev AtFile : StopEvent → Type 0
  AtFile e = Q (file_at e)

  live-All : (g : List Runner) → All OfFile g → All OfFile (live at g)
  unfolding live
  live-All [] h = tt
  live-All (r ∷ g) h = elim (Bool-cases (is_terminal (at r).state)) [
    | inl e ↦ rw e (live-All g h.1)
    | inr e ↦ rw e (h.0, live-All g h.1)
  ]

  signals-All : (g : List Runner) → All OfFile g → All AtFile (map signals g)
  signals-All [] h = tt
  signals-All (r ∷ g) h = (h.0, signals-All g h.1)

  awaits-All : (g : List Runner) → All OfFile g → All AtFile (map awaits g)
  awaits-All [] h = tt
  awaits-All (r ∷ g) h = (h.0, awaits-All g h.1)

  pub stop_runner_group-All : (g : List Runner) → All OfFile g → All AtFile (stop_runner_group at g)
  unfolding stop_runner_group
  stop_runner_group-All g h =
      All-append AtFile (map signals (live at g)) (map awaits (live at g))
        (signals-All (live at g) (live-All g h)) (awaits-All (live at g) (live-All g h))

  pub stop_groups-All :
      (gs : List (List Runner)) → All (All OfFile) gs → All AtFile (stop_groups at gs)
  unfolding stop_groups
  stop_groups-All [] h = tt
  stop_groups-All (g ∷ gs) h =
      All-append AtFile (stop_runner_group at g) (stop_groups at gs) (stop_runner_group-All g h.0)
        (stop_groups-All gs h.1)

-- The events of one group are all of its file.
pub text_ltb_irrefl : (s : String) → text_ltb s s ≡ false
text_ltb_irrefl s = elim (Bool-cases (text_ltb s s)) [ inl e ↦ text_ltb_asym s s e | inr e ↦ e ]

pub one_file-IsDescending :
    (fn : String) (l : List StopEvent) → All (λ (e : StopEvent). file_at e ≡ fn) l → IsDescending l
one_file-IsDescending fn [] h = tt
one_file-IsDescending fn (e ∷ l) h = (all l h.1, one_file-IsDescending fn l h.1)
  where
    all : (l : List StopEvent) → All (λ (f : StopEvent). file_at f ≡ fn) l → NoneLater e l
    all [] k = tt
    all (f ∷ l) k = (
      ap (λ x. text_ltb x (file_at f)) h.0 ∙ ap (text_ltb fn) k.0 ∙ text_ltb_irrefl fn,
      all l k.1,
    )
