-- ===== src/Supervisor/Diff/Guard.antt =====
-- internal/supervisor/diff.go: the guard against names that a retained service runs under.
use mathlib.Core.List.{Memᴰ}
use zpinit.Base.{
  String, ◌≡◌, ◌≢◌, refl, sym, ◌∙◌, Bool, true, false, Option, none, some, List, [], ◌∷◌, arith,
  inl, inr, Bool-cases,
}
use zpinit.Base.Texts.{str_eq, str_eq_self, str_eq-eq}
use zpinit.Config.Types.{Service, Config, is_nonempty}
use zpinit.Supervisor.Runner.State.{Runner}
use zpinit.Supervisor.Diff.{
  Orchestrator, RestartPair, ReloadDiff, file_of, runners_of, service_of, in_removed, in_restarted,
  is_in, proposed, retained_file, clash_of, clash, keep_restarts, guard_names, compute_diff,
}
use zpinit.Supervisor.Diff.Choice.{mem_file, proposed_choice, in_added, should_add}
use zpinit.Supervisor.Diff.Pairs.{proposed-IsPaired}
use zpinit.Supervisor.Diff.Keep.{
  mem-keep_adds, keep_adds-mem, mem-keep_restarts, retained_file-retained, retained_file-found,
}

mem-in_added : (s : Service) (l : List Service) → Memᴰ s l → in_added s.filename l ≡ true
unfolding in_added
mem-in_added s [] m = elim m [ ]
mem-in_added s (t ∷ l) (Memᴰ.head e) = rw e (rw (str_eq_self t.filename))
mem-in_added s (t ∷ l) (Memᴰ.tail m) = ground (arith, mem-in_added s l m)

mem-in_restarted :
    (p : RestartPair) (l : List RestartPair) → Memᴰ p l → in_restarted (file_of p.first) l ≡ true
unfolding in_restarted
mem-in_restarted p [] m = elim m [ ]
mem-in_restarted p (q ∷ l) (Memᴰ.head e) = rw e (rw (str_eq_self (file_of q.first)))
mem-in_restarted p (q ∷ l) (Memᴰ.tail m) = ground (arith, mem-in_restarted p l m)

-- no clash, though the name is found: it is found at the service's own file
clash-none : (o : Option String) (fn : String) → o ≢ none → clash o fn ≡ none → o ≡ some fn
clash-none none fn f n = absurd (f refl)
clash-none (some g) fn f n = ground (arith, str_eq-eq g fn)

in_restarted-mem :
    (fn : String) (l : List RestartPair)
    → in_restarted fn l ≡ true
    → (q : RestartPair) × Memᴰ q l × (file_of q.first ≡ fn)
unfolding in_restarted
in_restarted-mem fn [] e = cc
in_restarted-mem fn (q ∷ l) e = elim (Bool-cases (str_eq (file_of q.first) fn)) [
  | inl y ↦ (q, Memᴰ.head refl, str_eq-eq (file_of q.first) fn y)
  | inr n ↦ let (q', m, f) = in_restarted-mem fn l (rw n at e) in (q', Memᴰ.tail m, f)
]

-- No service that the diff adds has the name of a running service that it neither removes nor
-- restarts.
abbrev pub NamesKept : List Runner → ReloadDiff → Type 0
NamesKept runners d =
    (fn : String) (r : Runner) (rest : List Runner)
    → runners_of fn runners ≡ r ∷ rest
    → in_removed fn d.remove ≡ false
    → in_restarted fn d.restart ≡ false
    → (s : Service) → Memᴰ s d.add
    → s.name ≢ r.cfg.name

module _ (visits : List String) (o : Orchestrator) (new : Config) where
  abbrev before : ReloadDiff
  before = proposed o new

  add_is_new :
      (s : Service)
      → Memᴰ s before.add
      → retained_file s.name visits before o.runners ≢ some s.filename
  add_is_new s m e =
      let kept = retained_file-retained visits before o.runners s.name visits e in
      let added = mem-in_added s before.add m in
      let choice = (proposed_choice o new s.filename).1 in
      clash_add (runners_of s.filename o.runners) (service_of s.filename new.services) kept.1
        (sym choice ∙ added)
    where
      clash_add :
          (rs : List Runner) (t : Option Service)
          → is_nonempty rs ≡ true
          → should_add rs t ≡ true
          → ⊥
      clash_add [] t h k = cc
      clash_add (r ∷ rs) none h k = cc
      clash_add (r ∷ rs) (some t) h k = cc

  restart_is_gone :
      (p : RestartPair)
      → Memᴰ p before.restart
      → retained_file p.new.name visits before o.runners ≢ some p.new.filename
  restart_is_gone p m e =
      let kept = retained_file-retained visits before o.runners p.new.name visits e in
      let paired = proposed-IsPaired o new p m in
      let there = mem-in_restarted p before.restart m in
      unfold is_in in ground (arith, kept.0, paired.same_file, there)

  -- The guard keeps the names of the services that the diff leaves alone: no service that is added and
  -- none that is restarted takes the name of a running service whose file the diff neither removes nor
  -- means to restart, in whatever order the map of running files is visited.
  pub compute_diff_names :
      (fn : String) (r : Runner) (rest : List Runner)
      → mem_file fn visits ≡ true
      → runners_of fn o.runners ≡ r ∷ rest
      → is_in fn (proposed o new) ≡ false
      → ((s : Service) → Memᴰ s (compute_diff visits o new).add → s.name ≢ r.cfg.name)
        × ((p : RestartPair) → Memᴰ p (compute_diff visits o new).restart → p.new.name ≢ r.cfg.name)
  unfolding compute_diff guard_names
  compute_diff_names fn r rest seen runs left =
      let found = retained_file-found visits before o.runners fn r rest visits seen runs left in
      (
        λ s m e.
            let (was, free) = mem-keep_adds visits before o.runners s before.add m in
            add_is_new s was (clash-none _ s.filename (rw e found) free),
        λ p m e.
            let (was, free) = mem-keep_restarts visits before o.runners p before.restart m in
            restart_is_gone p was (clash-none _ p.new.filename (rw e found) free),
      )

  -- A restart that the guard refuses leaves its old service running, but the guard does not keep that
  -- service's name: if a service is added under it, and no service that the diff means to leave alone
  -- has that name, the names are not kept.
  pub refused_restart_name_taken :
      (p : RestartPair) (s : Service) {other : String}
      → Memᴰ p (proposed o new).restart
      → Memᴰ s (proposed o new).add
      → clash_of visits (proposed o new) o.runners p.new ≡ some other
      → retained_file s.name visits (proposed o new) o.runners ≡ none
      → s.name ≡ p.first.cfg.name
      → ¬ NamesKept o.runners (compute_diff visits o new)
  unfolding compute_diff guard_names
  refused_restart_name_taken p s mp ms refused free same kept =
      let pair = proposed-IsPaired o new p mp in
      let choice = proposed_choice o new (file_of p.first) in
      kept (file_of p.first) p.first p.others pair.all_replicas
        (ground (arith, choice.0, pair.the_service))
        (not_restarted
          (in_restarted (file_of p.first) (keep_restarts visits before o.runners before.restart).0)
          refl)
        s (keep_adds-mem visits before o.runners s before.add ms (rw free)) same
    where
      not_restarted :
          (b : Bool)
          → in_restarted (file_of p.first) (keep_restarts visits before o.runners before.restart).0
            ≡ b
          → in_restarted (file_of p.first) (keep_restarts visits before o.runners before.restart).0
            ≡ false
      not_restarted false e = e
      not_restarted true e =
          let (q, mq, file) = in_restarted-mem (file_of p.first) _ e in
          let (was, clear) = mem-keep_restarts visits before o.runners q before.restart mq in
          let qp = proposed-IsPaired o new q was in
          let pair = proposed-IsPaired o new p mp in
          cc (qp.the_service, pair.the_service, file, clear, refused)
