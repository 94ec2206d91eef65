-- ===== src/Samples/Commands.antt =====
-- Names of replicas on the command line.
use zpinit.Base.{ℕ, ◌≡◌, refl, inl, inr, true, false, none, some, List, [], ◌∷◌, ◌++◌, arith, map}
use zpinit.Base.Texts.{codes}
use zpinit.Base.Decimal.{decimal}
use zpinit.Config.Types.{Service}
use zpinit.Base.Int.{pos}
use zpinit.Supervisor.Runner.State.{running, Runner, display_name}
use zpinit.Supervisor.Targets.{found, resolve_target, expand_targets, translate_target}
use zpinit.Supervisor.Targets.Names.{IsShown, shown, expand_targets-shown, lone_index_accepted}
use zpinit.Supervisor.Targets.Supervisord.{supervisord_name, translate_target-supervisord_name}
use zpinit.Supervisor.Fanout.{Encounter, invalid_signal, reload_one, reload_across_groups}
use zpinit.Supervisor.Fanout.Inputs.{reload_across_groups-by_input}
use zpinit.Samples.Data.{service, runner, web_running}
use zpinit.Config.Replicas.{is_replicated}
use zpinit.Supervisor.Targets.{find_replica}
use zpinit.Supervisor.Targets.{named}

-- a service of two replicas
abbrev mail : Service
mail = record (service "30-mail.toml" "mail" "/bin/mail") {
  replicas = record { n = pos 2; auto = false };
}

abbrev mail_at : ℕ → Runner
mail_at i = runner mail i running none

abbrev registry : List Runner
registry = web_running ∷ mail_at 0 ∷ mail_at 1 ∷ []

mail-IsShown : IsShown registry (mail_at 1)
unfolding is_replicated find_replica
mail-IsShown = inl (refl, refl, ground arith, refl)

web-IsShown : IsShown registry web_running
unfolding is_replicated named
web-IsShown = inr (refl, refl, refl)

expand_targets-shown_example :
    expand_targets registry (shown (mail_at 1 ∷ web_running ∷ [])) true
    ≡ found (mail_at 1 ∷ web_running ∷ [])
expand_targets-shown_example =
    expand_targets-shown registry (mail_at 1 ∷ web_running ∷ []) true
      (mail-IsShown, (web-IsShown, tt)) (ground arith) (refl)

lone_index_accepted_example :
    resolve_target registry (codes "web" ++ b'/' ∷ decimal 0) ≡ found (web_running ∷ [])
unfolding named
lone_index_accepted_example = lone_index_accepted registry web_running refl (ground arith) refl

translate_target-supervisord_name_example :
    (translate_target (supervisord_name (mail_at 1)) ≡ some (codes (display_name (mail_at 1))))
    × (resolve_target registry (codes (display_name (mail_at 1))) ≡ found (mail_at 1 ∷ []))
unfolding is_replicated find_replica
translate_target-supervisord_name_example =
    translate_target-supervisord_name registry (mail_at 1) refl refl (ground arith) refl

-- A reload of three runners whose files alternate, where no restart is answered badly.
abbrev meets : Runner → Encounter
meets r = record { starts = true; ends = none; restart = none }

abbrev hup_mail : Runner
hup_mail = runner (record mail { reload_signal = "NOPE" }) 0 running none

errors_by_input :
    reload_across_groups meets (hup_mail ∷ web_running ∷ hup_mail ∷ [])
    ≡ some (invalid_signal "NOPE") ∷ none ∷ some (invalid_signal "NOPE") ∷ []
unfolding reload_across_groups
errors_by_input = refl

reload_across_groups-by_input_example :
    reload_across_groups meets (hup_mail ∷ web_running ∷ hup_mail ∷ [])
    ≡ map (reload_one meets) (hup_mail ∷ web_running ∷ hup_mail ∷ [])
reload_across_groups-by_input_example =
    reload_across_groups-by_input meets (hup_mail ∷ web_running ∷ hup_mail ∷ [])
