-- ===== src/Supervisor/StopAll/Teardown.antt =====
-- internal/supervisor/orchestrator.go: what stopAll leaves, and what it has waited for.
use mathlib.Core.List.{Memᴰ, reverse, reverse-cons, append_assoc, append-nil}
use zpinit.Base.{
  ◌≡◌, refl, sym, ap, ◌∙◌, true, false, List, [], ◌∷◌, ◌++◌, map, arith, Bool-cases, inl, inr,
}
use zpinit.Base.Texts.{text_ltb, str_eq-eq}
use zpinit.Supervisor.Runner.State.{Runner, is_terminal, set_shutting_down}
use zpinit.Supervisor.Replica.Expand.{All}
use zpinit.Supervisor.Diff.{Orchestrator, file_of, group_by_filename}
use zpinit.Supervisor.Diff.Groups.{concat, IsGroup, group_by_filename_groups}
use zpinit.Supervisor.Registry.{runner_ltb}
use zpinit.Supervisor.Registry.Order.{Low, IsSorted}
use zpinit.Supervisor.StopAll.{
  StopEvent, signals, awaits, live, stop_runner_group, stop_groups, stop_all,
}
use zpinit.Supervisor.StopAll.Order.{
  file_at, IsDescending, append-IsDescending, stop_groups-All, stop_runner_group-All,
  one_file-IsDescending, text_ltb_irrefl,
}
use zpinit.Supervisor.StopAll.Lists.{
  All-concat, All-reverse, mem-left, mem-right, mem-map, mem-reverse, mem-concat,
}

-- the runners that come after r in the registry are not of an earlier file
after_file : (r q : Runner) → runner_ltb q r ≡ false → text_ltb (file_of q) (file_of r) ≡ false
unfolding runner_ltb
after_file r q h = ground (arith, str_eq-eq (file_of q) (file_of r), text_ltb_irrefl (file_of r))

IsSorted-tail : (a b : List Runner) → IsSorted (a ++ b) → IsSorted b
IsSorted-tail [] b h = h
IsSorted-tail (r ∷ a) b h = IsSorted-tail a b h.1

all_latched :
    (l : List Runner)
    → All (λ (r : Runner). r.shutting_down ≡ true) (map (set_shutting_down true) l)
unfolding set_shutting_down
all_latched [] = tt
all_latched (r ∷ l) = (refl, all_latched l)

module _ (at : Runner → Runner) where
  stop_groups-snoc :
      (a : List (List Runner)) (g : List Runner)
      → stop_groups at (a ++ g ∷ []) ≡ stop_groups at a ++ stop_runner_group at g
  unfolding stop_groups
  stop_groups-snoc [] g = append-nil (stop_runner_group at g)
  stop_groups-snoc (h ∷ a) g =
      rw (stop_groups-snoc a g)
        (sym (append_assoc (stop_runner_group at h) (stop_groups at a) (stop_runner_group at g)))

  -- one runner that comes after the first of a group has no earlier file than any of it
  group_after :
      (r q : Runner) (g : List Runner)
      → All (λ (x : Runner). file_of x ≡ file_of r) g
      → runner_ltb q r ≡ false
      → All
          (λ (f : StopEvent). text_ltb (file_of q) (file_at f) ≡ false)
          (stop_runner_group at (r ∷ g))
  group_after r q g same h =
      stop_runner_group-All at (λ fn. text_ltb (file_of q) fn ≡ false) (r ∷ g)
        (after_file r q h, others g same)
    where
      others :
          (g : List Runner)
          → All (λ (x : Runner). file_of x ≡ file_of r) g
          → All (λ (x : Runner). text_ltb (file_of q) (file_of x) ≡ false) g
      others [] same = tt
      others (x ∷ g) same = (ap (text_ltb (file_of q)) same.0 ∙ after_file r q h, others g same.1)

  group_before :
      (r : Runner) (g : List Runner) (l : List Runner)
      → All (λ (x : Runner). file_of x ≡ file_of r) g
      → Low r l
      → All
          (λ (q : Runner).
            All
              (λ (f : StopEvent). text_ltb (file_of q) (file_at f) ≡ false)
              (stop_runner_group at (r ∷ g)))
          l
  group_before r g [] same low = tt
  group_before r g (q ∷ l) same low = (group_after r q g same low.0, group_before r g l same low.1)

  Low-tail : (r : Runner) (g l : List Runner) → Low r (g ++ l) → Low r l
  Low-tail r [] l h = h
  Low-tail r (q ∷ g) l h = Low-tail r g l h.1

  same_group :
      (r : Runner) (g : List Runner)
      → All (λ (x : Runner). file_of x ≡ file_of r) g
      → IsDescending (stop_runner_group at (r ∷ g))
  same_group r g same =
      one_file-IsDescending (file_of r) (stop_runner_group at (r ∷ g))
        (stop_runner_group-All at (λ fn. fn ≡ file_of r) (r ∷ g) (refl, same))

  reverse-IsDescending :
      (gs : List (List Runner))
      → All IsGroup gs
      → IsSorted (concat gs)
      → IsDescending (stop_groups at (reverse gs))
  unfolding concat
  reverse-IsDescending [] named sorted = unfold stop_groups in tt
  reverse-IsDescending ([] ∷ gs) named sorted = absurd named.0
  reverse-IsDescending ((r ∷ g) ∷ gs) named sorted =
      let before = group_before r g (concat gs) named.0 (Low-tail r g (concat gs) sorted.0) in
      rw (reverse-cons (r ∷ g) gs) (
        rw (stop_groups-snoc (reverse gs) (r ∷ g)) (
          append-IsDescending (stop_groups at (reverse gs)) (stop_runner_group at (r ∷ g))
            (reverse-IsDescending gs named.1 (IsSorted-tail (r ∷ g) (concat gs) sorted))
            (same_group r g named.0)
            (stop_groups-All at
              (λ fn.
                All (λ (f : StopEvent). text_ltb fn (file_at f) ≡ false)
                  (stop_runner_group at (r ∷ g)))
              (reverse gs) (All-reverse _ gs (All-concat _ gs before)))))

  mem-live :
      (r : Runner) (l : List Runner)
      → Memᴰ r l
      → is_terminal (at r).state ≡ false
      → Memᴰ r (live at l)
  unfolding live
  mem-live r [] m h = elim m [ ]
  mem-live r (q ∷ l) (Memᴰ.head e) h =
      rw (ap (λ (x : Runner). is_terminal (at x).state) (sym e) ∙ h) (Memᴰ.head e)
  mem-live r (q ∷ l) (Memᴰ.tail m) h =
      let ih = mem-live r l m h in
      elim (Bool-cases (is_terminal (at q).state)) [ inl e ↦ rw e ih | inr e ↦ rw e (Memᴰ.tail ih) ]

  -- the two events of a live runner of the groups
  Stops : Runner → List StopEvent → Type 0
  Stops r l = Memᴰ (signals r) l × Memᴰ (awaits r) l

  group-Stops :
      (r : Runner) (g : List Runner)
      → Memᴰ r g
      → is_terminal (at r).state ≡ false
      → Stops r (stop_runner_group at g)
  unfolding Stops stop_runner_group
  group-Stops r g m h =
      let k = mem-live r g m h in
      (
        mem-left (signals r) (map signals (live at g)) _ (mem-map r signals (live at g) k),
        mem-right (awaits r) (map signals (live at g)) _ (mem-map r awaits (live at g) k),
      )

  groups-Stops :
      (r : Runner) (gs : List (List Runner)) (g : List Runner)
      → Memᴰ g gs
      → Memᴰ r g
      → is_terminal (at r).state ≡ false
      → Stops r (stop_groups at gs)
  unfolding Stops stop_groups
  groups-Stops r [] g mg m h = elim mg [ ]
  groups-Stops r (x ∷ gs) g (Memᴰ.head e) m h =
      let k = group-Stops r x (rw (sym e) m) h in
      (mem-left _ (stop_runner_group at x) _ k.0, mem-left _ (stop_runner_group at x) _ k.1)
  groups-Stops r (x ∷ gs) g (Memᴰ.tail mg) m h =
      let k = groups-Stops r gs g mg m h in
      (mem-right _ (stop_runner_group at x) _ k.0, mem-right _ (stop_runner_group at x) _ k.1)

  -- stopAll latches every runner and takes the services down from the last file to the first: no event
  -- of a service comes after one of a service with a smaller file name, so a service is signalled only
  -- once every runner of the later ones that was still live has been awaited; and every runner that is
  -- live when its group is reached is signalled and awaited.
  pub stop_all_order :
      (o : Orchestrator)
      → IsSorted o.runners
      → IsDescending (stop_all at o).1
        × ((r : Runner)
            → Memᴰ r o.runners
            → is_terminal (at r).state ≡ false
            → Memᴰ (signals r) (stop_all at o).1 × Memᴰ (awaits r) (stop_all at o).1)
        × ((stop_all at o).0.stopping ≡ true)
        × All (λ (r : Runner). r.shutting_down ≡ true) (stop_all at o).0.runners
  unfolding stop_all Stops
  stop_all_order o sorted =
      let (whole, named, apart) = group_by_filename_groups o.runners in
      (
        reverse-IsDescending (group_by_filename o.runners) named (rw whole sorted),
        λ r m h.
            let (g, mg, mr) = mem-concat r (group_by_filename o.runners) (rw whole m) in
            groups-Stops r _ g (mem-reverse g (group_by_filename o.runners) mg) mr h,
        refl,
        all_latched o.runners,
      )
