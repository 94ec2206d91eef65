-- ===== src/Supervisor/Scoped/Restrict.antt =====
-- internal/supervisor/reload.go: what the scoped diff has of the full one.
use zpinit.Base.{String, ◌≡◌, true, ◌&&◌, List, [], ◌∷◌, arith, if◌then◌else◌}
use zpinit.Base.Texts.{str_eq-eq}
use zpinit.Config.Types.{Service}
use zpinit.Supervisor.Runner.State.{Runner}
use zpinit.Supervisor.Replica.Expand.{All}
use zpinit.Supervisor.Diff.{RestartPair, file_of}
use zpinit.Supervisor.Diff.Pairs.{IsPaired}
use zpinit.Supervisor.Registry.{has_replica}
use zpinit.Supervisor.Reload.{old_of}
use zpinit.Supervisor.Reload.Removed.{olds, news, has_replica-append}
use zpinit.Supervisor.Reload.Specs.{specs_of}
use zpinit.Supervisor.Reload.Whole.{has_replica-old_of}
use zpinit.Supervisor.Scoped.{is_wanted, wanted_removes, wanted_restarts, wanted_adds}

module _ (fn : String) (w : List String) where
  pub specs_of-wanted_adds :
      (l : List Service)
      → specs_of fn (wanted_adds w l) ≡ (if is_wanted fn w then specs_of fn l else [])
  unfolding specs_of wanted_adds
  specs_of-wanted_adds [] = ground arith
  specs_of-wanted_adds (s ∷ l) = ground (arith, specs_of-wanted_adds l, str_eq-eq s.filename fn)

  pub news-wanted_restarts :
      (l : List RestartPair)
      → specs_of fn (news (wanted_restarts w l))
        ≡ (if is_wanted fn w then specs_of fn (news l) else [])
  unfolding specs_of wanted_restarts news
  news-wanted_restarts [] = ground arith
  news-wanted_restarts (p ∷ l) = ground (arith, news-wanted_restarts l, str_eq-eq p.new.filename fn)

module _ (r : Runner) (w : List String) where
  pub has_replica-wanted_removes :
      (l : List Runner)
      → has_replica r (wanted_removes w l) ≡ is_wanted (file_of r) w && has_replica r l
  unfolding has_replica wanted_removes
  has_replica-wanted_removes [] = ground arith
  has_replica-wanted_removes (q ∷ l) =
      ground (arith, has_replica-wanted_removes l, str_eq-eq (file_of q) (file_of r))

  pub has_replica-wanted_restarts :
      (runners : List Runner) (services : List Service) (ps : List RestartPair)
      → has_replica r runners ≡ true
      → All (IsPaired runners services) ps
      → has_replica r (olds (wanted_restarts w ps))
        ≡ is_wanted (file_of r) w && has_replica r (olds ps)
  unfolding wanted_restarts olds
  has_replica-wanted_restarts runners services [] there h = unfold has_replica in ground arith
  has_replica-wanted_restarts runners services (p ∷ ps) there h = ground (
    arith,
    has_replica-wanted_restarts runners services ps there h.1,
    has_replica-append r (old_of p) (olds ps),
    has_replica-append r (old_of p) (olds (wanted_restarts w ps)),
    has_replica-old_of r runners services p there h.0,
    str_eq-eq (file_of p.first) (file_of r),
    h.0.same_file,
  )
