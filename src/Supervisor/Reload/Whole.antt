-- ===== src/Supervisor/Reload/Whole.antt =====
-- internal/supervisor/diff.go: a diff takes all the replicas of a file, or none.
use mathlib.Core.List.{Memᴰ}
use zpinit.Base.{
  String, ◌≡◌, refl, sym, ap, ◌∙◌, true, ◌&&◌, ◌||◌, List, [], ◌∷◌, arith, ◌==◌, Bool-cases, inl,
  inr,
}
use zpinit.Base.Texts.{str_eq, str_eq-eq, str_eq_self}
use zpinit.Config.Types.{Service, Config}
use zpinit.Supervisor.Runner.State.{Runner}
use zpinit.Supervisor.Replica.Expand.{All}
use zpinit.Supervisor.Diff.{
  Orchestrator, RestartPair, file_of, runners_of, ordered_files, decide, walk_files, in_removed,
  in_restarted, propagate_env, proposed,
}
use zpinit.Supervisor.Diff.Choice.{in_removed-append, in_removed-runners_of}
use zpinit.Supervisor.Diff.Pairs.{IsPaired, proposed-All}
use zpinit.Supervisor.Registry.{has_replica}
use zpinit.Supervisor.Reload.{old_of}
use zpinit.Supervisor.Reload.Removed.{olds, has_replica-append}

has_replica-runners_of :
    (r : Runner) (g : String) (l : List Runner)
    → has_replica r (runners_of g l) ≡ str_eq g (file_of r) && has_replica r l
unfolding has_replica runners_of
has_replica-runners_of r g [] = ground arith
has_replica-runners_of r g (q ∷ l) = ground (
  arith,
  has_replica-runners_of r g l,
  str_eq-eq (file_of q) g,
  str_eq-eq (file_of q) (file_of r),
  str_eq-eq g (file_of r),
  str_eq_self g,
)

pub mem-runners_of :
    (r : Runner) (g : String) (l : List Runner)
    → Memᴰ r (runners_of g l)
    → (file_of r ≡ g) × (has_replica r l ≡ true)
unfolding runners_of has_replica
mem-runners_of r g [] m = elim m [ ]
mem-runners_of r g (q ∷ l) m = elim (Bool-cases (str_eq (file_of q) g)) [
  | inl e ↦ first (mem-runners_of r g l) e (rw e at m)
  | inr e ↦ let (f, i) = mem-runners_of r g l (rw e at m) in (f, ground (arith, i))
]
  where
    first :
        (Memᴰ r (runners_of g l) → (file_of r ≡ g) × (has_replica r l ≡ true))
        → str_eq (file_of q) g ≡ true
        → Memᴰ r (q ∷ runners_of g l)
        → (file_of r ≡ g)
          × (str_eq (file_of q) (file_of r) && q.replica_index == r.replica_index || has_replica r l
              ≡ true)
    first ih e (Memᴰ.head p) =
        rw p (str_eq-eq (file_of q) g e, ground (arith, str_eq_self (file_of q)))
    first ih e (Memᴰ.tail m) = let (f, i) = ih m in (f, ground (arith, i))

pub has_replica-old_of :
    (r : Runner) (l : List Runner) (services : List Service) (p : RestartPair)
    → has_replica r l ≡ true
    → IsPaired l services p
    → has_replica r (old_of p) ≡ str_eq (file_of p.first) (file_of r)
has_replica-old_of r l services p there h =
    ap (has_replica r) (sym h.all_replicas)
    ∙ has_replica-runners_of r (file_of p.first) l
    ∙ ground arith

module _ (r : Runner) (l : List Runner) (there : has_replica r l ≡ true) (new : Config) where
  has_replica-removed :
      (files : List String)
      → has_replica r (walk_files files l new).remove
        ≡ in_removed (file_of r) (walk_files files l new).remove
  unfolding walk_files decide in_removed has_replica
  has_replica-removed [] = refl
  has_replica-removed (g ∷ files) =
      let more = (walk_files files l new).remove in
      ground (
        arith,
        has_replica-removed files,
        has_replica-append r (runners_of g l) more,
        has_replica-runners_of r g l,
        in_removed-append (file_of r) (runners_of g l) more,
        in_removed-runners_of (file_of r) g l,
      )

  has_replica-olds :
      (ps : List RestartPair)
      → All (IsPaired l new.services) ps
      → has_replica r (olds ps) ≡ in_restarted (file_of r) ps
  unfolding olds in_restarted
  has_replica-olds [] h = unfold has_replica in refl
  has_replica-olds (p ∷ ps) h = ground (
    arith,
    has_replica-old_of r l new.services p there h.0,
    has_replica-olds ps h.1,
    has_replica-append r (old_of p) (olds ps),
  )

module _ (r : Runner) (o : Orchestrator) (new : Config)
    (there : has_replica r o.runners ≡ true) where
  pub proposed-removed :
      has_replica r (proposed o new).remove ≡ in_removed (file_of r) (proposed o new).remove
  unfolding proposed propagate_env
  proposed-removed =
      ground
        (arith, has_replica-removed r o.runners there new (ordered_files o.runners new.services))

  pub proposed-restarted :
      has_replica r (olds (proposed o new).restart)
      ≡ in_restarted (file_of r) (proposed o new).restart
  proposed-restarted =
      has_replica-olds r o.runners there new (proposed o new).restart (proposed-All o new)
