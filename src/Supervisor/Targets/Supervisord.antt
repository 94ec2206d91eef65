-- ===== src/Supervisor/Targets/Supervisord.antt =====
-- cmd/zpctl/target.go: supervisord's name of a replica, group:name_index, becomes the name that zpinit
-- shows for it.
use zpinit.Base.{
  ℕ, ◌<◌, ◌^◌, inl, ◌≡◌, refl, sym, ap, ◌∙◌, true, false, some, List, [], ◌∷◌, ◌++◌, arith,
}
use zpinit.Base.Int.{pos}
use zpinit.Base.Texts.{codes}
use zpinit.Base.Decimal.{decimal}
use zpinit.Base.Number.{atoi, atoi-decimal}
use zpinit.Base.Cuts.{cut, cut_prefix, cut-lacks, cut_prefix-append}
use zpinit.Config.Signal.{eq_codes}
use zpinit.Config.Replicas.{is_replicated}
use zpinit.Config.Validate.Service.{is_name_code, all_codes}
use zpinit.Supervisor.Runner.State.{Runner, display_name}
use zpinit.Supervisor.Targets.{found, resolve_target, translate_target}
use zpinit.Supervisor.Targets.Names.{
  name-lacks, IsOnly, codes-display_name, resolve_target-display_name,
}

longer : (a d : List ℕ) (c : ℕ) → eq_codes (a ++ c ∷ d) a ≡ false
unfolding eq_codes
longer [] d c = refl
longer (x ∷ a) d c = ground (arith, longer a d c)

not_star : (a d : List ℕ) → eq_codes (a ++ b'_' ∷ d) (b'*' ∷ []) ≡ false
unfolding eq_codes
not_star [] d = refl
not_star (x ∷ []) d = ground arith
not_star (x ∷ y ∷ a) d = ground arith

translate-indexed :
    (arg group proc suffix : List ℕ) (n : ℕ)
    → cut b':' arg ≡ some (group, proc)
    → eq_codes proc (b'*' ∷ []) ≡ false
    → eq_codes proc group ≡ false
    → cut_prefix (group ++ b'_' ∷ []) proc ≡ some suffix
    → atoi suffix ≡ some (pos n)
    → translate_target arg ≡ some (group ++ b'/' ∷ decimal n)
unfolding translate_target
translate-indexed arg group proc suffix n c s g p a = ground (arith, c, s, g, p, a)

-- supervisord's name of a replica
abbrev pub supervisord_name : Runner → List ℕ
supervisord_name r = codes r.cfg.name ++ b':' ∷ (codes r.cfg.name ++ b'_' ∷ decimal r.replica_index)

-- Take a replica whose service name has the characters that validation allows, with an index below 2^63,
-- and that the registry finds first under its name and index. Its name as supervisord writes it,
-- `name:name_index`, is translated to the name that zpinit shows for it, and the control server resolves
-- that name to this replica alone.
pub translate_target-supervisord_name :
    (snap : List Runner) (r : Runner)
    → is_replicated r.cfg.replicas ≡ true
    → all_codes is_name_code (codes r.cfg.name) ≡ true
    → r.replica_index < 2 ^ 63
    → IsOnly r snap
    → (translate_target (supervisord_name r) ≡ some (codes (display_name r)))
      × (resolve_target snap (codes (display_name r)) ≡ found (r ∷ []))
translate_target-supervisord_name snap r h k lt only =
    let name = codes r.cfg.name in
    let index = decimal r.replica_index in
    let proc = name ++ b'_' ∷ index in
    (
      translate-indexed (supervisord_name r) name proc index r.replica_index
            (cut-lacks b':' name proc (name-lacks b':' name refl k)) (not_star name index)
            (longer name index b'_') (cut_prefix-append name index b'_')
            (atoi-decimal r.replica_index lt)
          ∙ ap some (sym (codes-display_name r h)),
      resolve_target-display_name snap r (inl (h, k, lt, only)),
    )
