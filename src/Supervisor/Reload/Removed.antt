-- ===== src/Supervisor/Reload/Removed.antt =====
-- internal/supervisor/reload.go: the registry after the stops of a reload, where every stop ends.
use mathlib.Core.List.{Memᴰ, reverse, reverse-cons}
use zpinit.Base.{
  String, ◌≡◌, refl, sym, ap, ◌∙◌, Bool, true, false, ◌||◌, List, [], ◌∷◌, ◌++◌, map, arith,
  if◌then◌else◌,
}
use zpinit.Config.Types.{Service}
use zpinit.Supervisor.Runner.State.{Runner, is_terminal}
use zpinit.Supervisor.Diff.{Orchestrator, RestartPair, runners_of, group_by_filename}
use zpinit.Supervisor.Diff.Groups.{concat, group_by_filename_groups}
use zpinit.Supervisor.Registry.{remove_service_group, has_replica}
use zpinit.Supervisor.Reload.{
  remove_errors, remove_group, remove_groups, old_of, insert_restart, sort_restarts, restart_groups,
}

unfoldable pub without : (Runner → Bool) → List Runner → List Runner
without p [] = []
without p (r ∷ rest) = let more = without p rest in if p r then more else r ∷ more

pub without-without :
    (p q : Runner → Bool) (l : List Runner) → without q (without p l) ≡ without (λ r. p r || q r) l
unfolding without
without-without p q [] = refl
without-without p q (r ∷ l) = ground (arith, without-without p q l)

pub runners_of-without :
    (fn : String) (p : Runner → Bool) (l : List Runner)
    → runners_of fn (without p l) ≡ without p (runners_of fn l)
unfolding runners_of without
runners_of-without fn p [] = refl
runners_of-without fn p (r ∷ l) = ground (arith, runners_of-without fn p l)

pub without-ext :
    (p q : Runner → Bool) (l : List Runner)
    → ((r : Runner) → Memᴰ r l → p r ≡ q r)
    → without p l ≡ without q l
unfolding without
without-ext p q [] h = refl
without-ext p q (r ∷ l) h =
    ground (arith, h r (Memᴰ.head refl), without-ext p q l (λ x m. h x (Memᴰ.tail m)))

pub without-const : (b : Bool) (l : List Runner) → without (λ r. b) l ≡ (if b then [] else l)
unfolding without
without-const b [] = ground arith
without-const b (r ∷ l) = ground (arith, without-const b l)

pub has_replica-append :
    (r : Runner) (a b : List Runner) → has_replica r (a ++ b) ≡ has_replica r a || has_replica r b
unfolding has_replica
has_replica-append r [] b = refl
has_replica-append r (q ∷ a) b = ground (arith, has_replica-append r a b)

has_replica-reverse :
    (r : Runner) (gs : List (List Runner))
    → has_replica r (concat (reverse gs)) ≡ has_replica r (concat gs)
unfolding concat
has_replica-reverse r [] = refl
has_replica-reverse r (g ∷ gs) = rw (reverse-cons g gs) (
    ground (
      arith,
      has_replica-concat (reverse gs),
      has_replica-reverse r gs,
      has_replica-append r g (concat gs),
    ))
  where
    has_replica-concat :
        (xs : List (List Runner))
        → has_replica r (concat (xs ++ g ∷ [])) ≡ has_replica r (concat xs) || has_replica r g
    has_replica-concat [] = ground (arith, has_replica-append r g [])
    has_replica-concat (x ∷ xs) = ground (
      arith,
      has_replica-append r x (concat (xs ++ g ∷ [])),
      has_replica-append r x (concat xs),
      has_replica-concat xs,
    )

unfoldable pub olds : List RestartPair → List Runner
olds [] = []
olds (p ∷ rest) = old_of p ++ olds rest

has_replica-insert_restart :
    (r : Runner) (p : RestartPair) (l : List RestartPair)
    → has_replica r (olds (insert_restart p l)) ≡ has_replica r (old_of p) || has_replica r (olds l)
unfolding olds insert_restart
has_replica-insert_restart r p [] = has_replica-append r (old_of p) []
has_replica-insert_restart r p (q ∷ l) = ground (
  arith,
  has_replica-insert_restart r p l,
  has_replica-append r (old_of q) (olds (insert_restart p l)),
  has_replica-append r (old_of q) (olds l),
  has_replica-append r (old_of p) (old_of q ++ olds l),
)

has_replica-sort_restarts :
    (r : Runner) (l : List RestartPair)
    → has_replica r (olds (sort_restarts l)) ≡ has_replica r (olds l)
unfolding olds sort_restarts
has_replica-sort_restarts r [] = refl
has_replica-sort_restarts r (p ∷ l) = ground (
  arith,
  has_replica-insert_restart r p (sort_restarts l),
  has_replica-sort_restarts r l,
  has_replica-append r (old_of p) (olds l),
)

unfoldable pub news : List RestartPair → List Service
news ps = map (λ (p : RestartPair). p.new) ps

module _ (after : Runner → Runner) (ends : (r : Runner) → is_terminal (after r).state ≡ true) where
  remove_service_group-without :
      (p : Runner → Bool) (l : List Runner) → remove_service_group p after l ≡ without p l
  unfolding remove_service_group without
  remove_service_group-without p [] = refl
  remove_service_group-without p (r ∷ l) = ground (arith, ends r, remove_service_group-without p l)

  remove_errors-none : (g : List Runner) → remove_errors after g ≡ []
  unfolding remove_errors
  remove_errors-none [] = refl
  remove_errors-none (r ∷ g) = ground (arith, ends r, remove_errors-none g)

  abbrev left : (Runner → Bool) → Orchestrator → Orchestrator
  left p o = record o { runners = without p o.runners }

  remove_group_ends :
      (g : List Runner) (o : Orchestrator)
      → remove_group after g o ≡ (left (λ r. has_replica r g) o, [])
  unfolding remove_group
  remove_group_ends g o =
      cc (remove_service_group-without (λ r. has_replica r g) o.runners, remove_errors-none g)

  left-none : (o : Orchestrator) → left (λ r. has_replica r []) o ≡ o
  unfolding has_replica
  left-none o = ap (λ (l : List Runner). record o { runners = l }) (without-const false o.runners)

  left-left :
      (a b c : List Runner) (o : Orchestrator)
      → ((r : Runner) → has_replica r c ≡ has_replica r a || has_replica r b)
      → left (λ r. has_replica r b) (left (λ r. has_replica r a) o) ≡ left (λ r. has_replica r c) o
  left-left a b c o h =
      ap (λ (l : List Runner). record o { runners = l })
        (without-without (λ r. has_replica r a) (λ r. has_replica r b) o.runners
          ∙ without-ext _ _ o.runners (λ r m. sym (h r)))

  remove_groups_ends :
      (gs : List (List Runner)) (o : Orchestrator)
      → remove_groups after gs o ≡ (left (λ r. has_replica r (concat gs)) o, [])
  unfolding remove_groups concat
  remove_groups_ends [] o = ap (λ (x : Orchestrator). (x, [])) (sym (left-none o))
  remove_groups_ends (g ∷ gs) o =
      let one = remove_group_ends g o in
      let more = remove_groups_ends gs (left (λ r. has_replica r g) o) in
      cc (
        one,
        more,
        left-left g (concat gs) (g ++ concat gs) o (λ r. has_replica-append r g (concat gs)),
      )

  pub remove_all_ends :
      (rs : List Runner) (o : Orchestrator)
      → remove_groups after (reverse (group_by_filename rs)) o
        ≡ (left (λ r. has_replica r rs) o, [])
  remove_all_ends rs o =
      let gs = group_by_filename rs in
      remove_groups_ends (reverse gs) o
      ∙ ap (λ (l : List Runner). (record o { runners = l }, []))
          (without-ext _ _ o.runners
            (λ r m. has_replica-reverse r gs ∙ ap (has_replica r) (group_by_filename_groups rs).0))

  restart_groups_ends :
      (ps : List RestartPair) (o : Orchestrator)
      → restart_groups after ps o ≡ (left (λ r. has_replica r (olds ps)) o, news ps, [])
  unfolding restart_groups olds news
  restart_groups_ends [] o = ap (λ (x : Orchestrator). (x, [], [])) (sym (left-none o))
  restart_groups_ends (p ∷ ps) o =
      let one = remove_group_ends (old_of p) o in
      let more = restart_groups_ends ps (left (λ r. has_replica r (old_of p)) o) in
      rw one (
        rw more (
          ap (λ (x : Orchestrator). (x, p.new ∷ news ps, []))
            (left-left (old_of p) (olds ps) (old_of p ++ olds ps) o
              (λ r. has_replica-append r (old_of p) (olds ps)))))

  pub restart_all_ends :
      (ps : List RestartPair) (o : Orchestrator)
      → restart_groups after (sort_restarts ps) o
        ≡ (left (λ r. has_replica r (olds ps)) o, news (sort_restarts ps), [])
  restart_all_ends ps o =
      restart_groups_ends (sort_restarts ps) o
      ∙ ap (λ (l : List Runner). (record o { runners = l }, news (sort_restarts ps), []))
          (without-ext _ _ o.runners (λ r m. has_replica-sort_restarts r ps))
