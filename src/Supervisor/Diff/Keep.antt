-- ===== src/Supervisor/Diff/Keep.antt =====
-- internal/supervisor/diff.go: which actions pass the name guard, and what it finds.
use mathlib.Core.List.{Memᴰ}
use zpinit.Base.{
  String, ◌≡◌, ◌≢◌, refl, true, false, Option, none, some, List, [], ◌∷◌, arith, ◌⊎◌, inl, inr,
}
use zpinit.Base.Texts.{str_eq_self, str_eq-eq}
use zpinit.Config.Types.{Service, is_nonempty}
use zpinit.Supervisor.Runner.State.{Runner}
use zpinit.Supervisor.Diff.{
  RestartPair, ReloadDiff, Conflict, add_refused, restart_refused, runners_of, is_in, retained_file,
  clash_of, keep_or_refuse, keep_adds, keep_restarts,
}
use zpinit.Supervisor.Diff.Choice.{mem_file}

module _ {ℓ} {A : Type ℓ} (o : Option String) (t : A) (c : String → Conflict)
    (r : List A × List Conflict) where
  mem-keep_or_refuse :
      (s : A) → Memᴰ s (keep_or_refuse o t c r).0 → ((o ≡ none) × (s ≡ t)) ⊎ Memᴰ s r.0
  unfolding keep_or_refuse
  mem-keep_or_refuse = cases o r
    where
      cases :
          (o : Option String) (r : List A × List Conflict) (s : A)
          → Memᴰ s (keep_or_refuse o t c r).0
          → ((o ≡ none) × (s ≡ t)) ⊎ Memᴰ s r.0
      cases none r s (Memᴰ.head e) = inl (refl, e)
      cases none r s (Memᴰ.tail m) = inr m
      cases (some x) r s m = inr m

  keep_or_refuse-head : o ≡ none → Memᴰ t (keep_or_refuse o t c r).0
  unfolding keep_or_refuse
  keep_or_refuse-head e = rw e (Memᴰ.head refl)

  keep_or_refuse-tail : {s : A} → Memᴰ s r.0 → Memᴰ s (keep_or_refuse o t c r).0
  unfolding keep_or_refuse
  keep_or_refuse-tail {s} = cases o
    where
      cases : (o : Option String) → Memᴰ s r.0 → Memᴰ s (keep_or_refuse o t c r).0
      cases none m = Memᴰ.tail m
      cases (some x) m = m

  keep_or_refuse-refused : {x : String} → o ≡ some x → Memᴰ (c x) (keep_or_refuse o t c r).1
  unfolding keep_or_refuse
  keep_or_refuse-refused e = rw e (Memᴰ.head refl)

  keep_or_refuse-conflicts : {k : Conflict} → Memᴰ k r.1 → Memᴰ k (keep_or_refuse o t c r).1
  unfolding keep_or_refuse
  keep_or_refuse-conflicts {k} = cases o
    where
      cases : (o : Option String) → Memᴰ k r.1 → Memᴰ k (keep_or_refuse o t c r).1
      cases none m = m
      cases (some x) m = Memᴰ.tail m

module _ (visits : List String) (d : ReloadDiff) (runners : List Runner) where
  pub mem-keep_adds :
      (s : Service) (l : List Service)
      → Memᴰ s (keep_adds visits d runners l).0
      → Memᴰ s l × (clash_of visits d runners s ≡ none)
  unfolding keep_adds
  mem-keep_adds s [] m = elim m [ ]
  mem-keep_adds s (t ∷ l) m =
      elim (mem-keep_or_refuse (clash_of visits d runners t) t (add_refused t.filename t.name)
        (keep_adds visits d runners l) s m) [
          | inl (n, e) ↦ (Memᴰ.head e, rw e n)
          | inr k ↦ let ih = mem-keep_adds s l k in (Memᴰ.tail ih.0, ih.1)
        ]

  pub keep_adds-mem :
      (s : Service) (l : List Service)
      → Memᴰ s l
      → clash_of visits d runners s ≡ none
      → Memᴰ s (keep_adds visits d runners l).0
  unfolding keep_adds
  keep_adds-mem s [] m n = elim m [ ]
  keep_adds-mem s (t ∷ l) (Memᴰ.head e) n = rw e (keep_or_refuse-head _ t _ _ (rw e at n))
  keep_adds-mem s (t ∷ l) (Memᴰ.tail m) n = keep_or_refuse-tail _ t _ _ (keep_adds-mem s l m n)

  pub mem-keep_restarts :
      (p : RestartPair) (l : List RestartPair)
      → Memᴰ p (keep_restarts visits d runners l).0
      → Memᴰ p l × (clash_of visits d runners p.new ≡ none)
  unfolding keep_restarts
  mem-keep_restarts p [] m = elim m [ ]
  mem-keep_restarts p (q ∷ l) m =
      elim (mem-keep_or_refuse (clash_of visits d runners q.new) q
        (restart_refused q.new.filename q.new.name) (keep_restarts visits d runners l) p m) [
          | inl (n, e) ↦ (Memᴰ.head e, rw e n)
          | inr k ↦ let ih = mem-keep_restarts p l k in (Memᴰ.tail ih.0, ih.1)
        ]

  pub keep_restarts-refused :
      (p : RestartPair) {other : String} (l : List RestartPair)
      → Memᴰ p l
      → clash_of visits d runners p.new ≡ some other
      → Memᴰ (restart_refused p.new.filename p.new.name other) (keep_restarts visits d runners l).1
  unfolding keep_restarts
  keep_restarts-refused p [] m n = elim m [ ]
  keep_restarts-refused p (q ∷ l) (Memᴰ.head e) n =
      rw e (keep_or_refuse-refused _ q (restart_refused q.new.filename q.new.name) _ (rw e at n))
  keep_restarts-refused p (q ∷ l) (Memᴰ.tail m) n =
      keep_or_refuse-conflicts _ q _ _ (keep_restarts-refused p l m n)

  -- What the lookup finds is a running file that the diff leaves alone.
  pub retained_file-retained :
      (name : String) (l : List String) {g : String}
      → retained_file name l d runners ≡ some g
      → (is_in g d ≡ false) × (is_nonempty (runners_of g runners) ≡ true)
  unfolding retained_file
  retained_file-retained name [] e = cc
  retained_file-retained name (fn ∷ l) {g} e = ground (arith, retained_file-retained name l {g = g})

  -- A file that is retained and runs the name makes the lookup find one.
  pub retained_file-found :
      (fn : String) (r : Runner) (rest : List Runner) (l : List String)
      → mem_file fn l ≡ true
      → runners_of fn runners ≡ r ∷ rest
      → is_in fn d ≡ false
      → retained_file r.cfg.name l d runners ≢ none
  unfolding retained_file mem_file
  retained_file-found fn r rest [] m e n = cc
  retained_file-found fn r rest (g ∷ l) m e n =
      ground (arith, retained_file-found fn r rest l, str_eq-eq g fn, str_eq_self r.cfg.name)
