-- ===== src/Supervisor/Targets/Names.antt =====
-- internal/supervisor/control.go and cmd/zpctl/target.go: the names that zpinit shows, and supervisord's,
-- lead back to their replica.
use zpinit.Base.{
  ℕ, ◌<◌, ◌^◌, ◌⊎◌, inl, inr, ◌≡◌, ◌≢◌, refl, ap, ◌∙◌, Bool, true, false, none, some, List, [], ◌∷◌,
  ◌++◌, arith,
}
use zpinit.Base.Int.{pos}
use zpinit.Base.Texts.{codes, cat}
use zpinit.Base.Decimal.{decimal, itoa}
use zpinit.Base.Cuts.{cut, lacks, cut-lacks, cut-none}
use zpinit.Base.Number.{atoi, atoi-decimal, codes-itoa, codes-cat}
use zpinit.Config.Signal.{eq_codes}
use zpinit.Config.Replicas.{is_replicated}
use zpinit.Config.Validate.Service.{is_name_code, all_codes}
use zpinit.Supervisor.Runner.State.{Runner, display_name}
use zpinit.Supervisor.Targets.{
  found, named, find_replica, resolve_target, resolve_each, is_all, expand_targets,
}

eq_codes_self : (s : List ℕ) → eq_codes s s ≡ true
unfolding eq_codes
eq_codes_self [] = refl
eq_codes_self (c ∷ s) = ground (arith, eq_codes_self s)

pub name-lacks :
    (sep : ℕ) (l : List ℕ)
    → is_name_code sep ≡ false
    → all_codes is_name_code l ≡ true
    → lacks sep l ≡ true
unfolding lacks
name-lacks sep [] h k = refl
name-lacks sep (c ∷ l) h k = ground (arith, name-lacks sep l h)

-- The registry has one runner of a name and an index.
abbrev pub IsOnly : Runner → List Runner → Type 0
IsOnly r snap = find_replica (codes r.cfg.name) (pos r.replica_index) snap ≡ some r

pub codes-display_name :
    (r : Runner)
    → is_replicated r.cfg.replicas ≡ true
    → codes (display_name r) ≡ codes r.cfg.name ++ b'/' ∷ decimal r.replica_index
unfolding display_name
codes-display_name r h = rw h (
    codes-cat r.cfg.name (cat "/" (itoa r.replica_index))
    ∙ ap (λ l. codes r.cfg.name ++ b'/' ∷ l) (codes-itoa r.replica_index))

codes-lone :
    (r : Runner) → is_replicated r.cfg.replicas ≡ false → codes (display_name r) ≡ codes r.cfg.name
unfolding display_name
codes-lone r h = rw h refl

-- The name that is shown for r leads to r: a replica's by its index, a lone runner's by its service.
abbrev pub IsShown : List Runner → Runner → Type 0
IsShown snap r =
    (is_replicated r.cfg.replicas ≡ true)
      × (all_codes is_name_code (codes r.cfg.name) ≡ true)
      × (r.replica_index < 2 ^ 63)
      × IsOnly r snap
    ⊎ (is_replicated r.cfg.replicas ≡ false)
      × (all_codes is_name_code (codes r.cfg.name) ≡ true)
      × (named (codes r.cfg.name) snap ≡ r ∷ [])

resolve-indexed :
    (snap : List Runner) (arg name replica : List ℕ) (n : ℕ) (r : Runner)
    → cut b'/' arg ≡ some (name, replica)
    → atoi replica ≡ some (pos n)
    → find_replica name (pos n) snap ≡ some r
    → resolve_target snap arg ≡ found (r ∷ [])
unfolding resolve_target
resolve-indexed snap arg name replica n r e a h = ground (arith, e, a, h)

resolve-plain :
    (snap : List Runner) (arg : List ℕ) (r : Runner)
    → cut b'/' arg ≡ none
    → named arg snap ≡ r ∷ []
    → resolve_target snap arg ≡ found (r ∷ [])
unfolding resolve_target
resolve-plain snap arg r e h = ground (arith, e, h)

pub resolve_target-display_name :
    (snap : List Runner) (r : Runner)
    → IsShown snap r
    → resolve_target snap (codes (display_name r)) ≡ found (r ∷ [])
resolve_target-display_name snap r (inl (h, k, lt, only)) =
    let c =
      cut-lacks b'/' (codes r.cfg.name) (decimal r.replica_index)
        (name-lacks b'/' (codes r.cfg.name) refl k) in
    rw (codes-display_name r h) (
      resolve-indexed snap (codes r.cfg.name ++ b'/' ∷ decimal r.replica_index) (codes r.cfg.name)
        (decimal r.replica_index) r.replica_index r c (atoi-decimal r.replica_index lt) only)
resolve_target-display_name snap r (inr (h, k, lone)) = rw (codes-lone r h) (
    resolve-plain snap (codes r.cfg.name) r
      (cut-none b'/' (codes r.cfg.name) (name-lacks b'/' (codes r.cfg.name) refl k)) lone)

abbrev pub shown : List Runner → List (List ℕ)
shown [] = []
shown (r ∷ rs) = codes (display_name r) ∷ shown rs

abbrev pub AllShown : List Runner → List Runner → Type 0
AllShown snap [] = Unit
AllShown snap (r ∷ rs) = IsShown snap r × AllShown snap rs

resolve_each-shown :
    (snap rs : List Runner) → AllShown snap rs → resolve_each snap (shown rs) ≡ found rs
unfolding resolve_each
resolve_each-shown snap [] h = refl
resolve_each-shown snap (r ∷ rs) (h, more) =
    rw (resolve_target-display_name snap r h, resolve_each-shown snap rs more) refl

-- Control commands read back the names that zpinit shows. Take runners whose service names have the
-- characters that validation allows: a replica, with an index below 2^63, that the registry finds first
-- under its name and index, or the one runner of a service without replicas. The list of their display
-- names, if it is not empty and not the single word `all`, expands to exactly these runners in the same
-- order.
pub expand_targets-shown :
    (snap rs : List Runner) (all_on_empty : Bool)
    → AllShown snap rs
    → rs ≢ []
    → is_all (shown rs) ≡ false
    → expand_targets snap (shown rs) all_on_empty ≡ found rs
unfolding expand_targets
expand_targets-shown snap [] all_on_empty h k a = absurd (k refl)
expand_targets-shown snap (r ∷ rs) all_on_empty h k a = rw a (resolve_each-shown snap (r ∷ rs) h)

find_replica-named :
    (name : List ℕ) (snap : List Runner) (r : Runner)
    → named name snap ≡ r ∷ []
    → find_replica name (pos r.replica_index) snap ≡ some r
unfolding find_replica named
find_replica-named name [] r h = absurd (nonempty h)
  where
    nonempty : [] ≡ r ∷ [] → ⊥
    nonempty e = ground (arith, e)
find_replica-named name (s ∷ snap) r h = ground (arith, h, find_replica-named name snap r)

-- The comment of expandTargets says that an index is rejected where a service has one replica only. It
-- is accepted: where one runner has the name, made of the characters that validation allows, and its
-- index is below 2^63, the name with a slash and that index gives the runner, whatever `replicas` says.
pub lone_index_accepted :
    (snap : List Runner) (r : Runner)
    → all_codes is_name_code (codes r.cfg.name) ≡ true
    → r.replica_index < 2 ^ 63
    → named (codes r.cfg.name) snap ≡ r ∷ []
    → resolve_target snap (codes r.cfg.name ++ b'/' ∷ decimal r.replica_index) ≡ found (r ∷ [])
lone_index_accepted snap r k lt h =
    resolve-indexed snap (codes r.cfg.name ++ b'/' ∷ decimal r.replica_index) (codes r.cfg.name)
      (decimal r.replica_index) r.replica_index r
      (cut-lacks b'/' (codes r.cfg.name) (decimal r.replica_index)
        (name-lacks b'/' (codes r.cfg.name) refl k))
      (atoi-decimal r.replica_index lt) (find_replica-named (codes r.cfg.name) snap r h)
