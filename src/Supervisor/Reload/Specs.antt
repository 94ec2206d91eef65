-- ===== src/Supervisor/Reload/Specs.antt =====
-- internal/supervisor/diff.go and reload.go: the services that a diff starts, file by file.
use zpinit.Base.{
  ◌≤◌, String, ◌≡◌, refl, ap, true, false, List, [], ◌∷◌, ◌++◌, arith, length, if◌then◌else◌,
}
use zpinit.Base.Texts.{str_eq, str_eq-eq, str_eq_self, text_ltb}
use zpinit.Base.TextOrder.{text_ltb_trans, text_ltb_asym, text_ltb_total}
use zpinit.Config.Types.{Service}
use zpinit.Supervisor.Runner.State.{Runner}
use zpinit.Supervisor.Replica.Expand.{All}
use zpinit.Supervisor.Diff.{RestartPair, insert_file, runner_files, service_files, ordered_files}
use zpinit.Supervisor.Diff.Choice.{mem_file}
use zpinit.Supervisor.Reload.{sort_restarts, insert_restart, insert_spec, sort_specs}
use zpinit.Supervisor.Reload.Removed.{news}

-- the services of a file, of which a list may have several
unfoldable pub specs_of : String → List Service → List Service
specs_of fn [] = []
specs_of fn (s ∷ rest) =
    let more = specs_of fn rest in if str_eq s.filename fn then s ∷ more else more

pub specs_of-append :
    (fn : String) (a b : List Service) → specs_of fn (a ++ b) ≡ specs_of fn a ++ specs_of fn b
unfolding specs_of
specs_of-append fn [] b = refl
specs_of-append fn (s ∷ a) b = ground (arith, specs_of-append fn a b)

pub news-append : (a b : List RestartPair) → news (a ++ b) ≡ news a ++ news b
unfolding news
news-append [] b = refl
news-append (p ∷ a) b = ap (λ l. p.new ∷ l) (news-append a b)

none_of_file : (l : List Service) → length l ≤ 0 → l ≡ []
none_of_file [] h = refl
none_of_file (s ∷ l) h = absurd (omega arith)

specs_of-insert_spec :
    (fn : String) (s : Service) (l : List Service)
    → (specs_of fn l ≡ [] → specs_of fn (insert_spec s l) ≡ specs_of fn (s ∷ []))
      × (str_eq s.filename fn ≡ false → specs_of fn (insert_spec s l) ≡ specs_of fn l)
unfolding specs_of insert_spec
specs_of-insert_spec fn s [] = (λ e. refl, λ e. ground arith)
specs_of-insert_spec fn s (t ∷ l) =
    let ih = specs_of-insert_spec fn s l in (λ e. ground (arith, ih), λ e. ground (arith, ih))

pub specs_of-sort_specs :
    (fn : String) (l : List Service)
    → length (specs_of fn l) ≤ 1
    → specs_of fn (sort_specs l) ≡ specs_of fn l
unfolding specs_of sort_specs
specs_of-sort_specs fn [] h = refl
specs_of-sort_specs fn (s ∷ l) h = ground (
  arith,
  specs_of-insert_spec fn s (sort_specs l),
  specs_of-sort_specs fn l,
  none_of_file (specs_of fn l),
)

news-insert_restart :
    (fn : String) (p : RestartPair) (l : List RestartPair)
    → (specs_of fn (news l) ≡ []
        → specs_of fn (news (insert_restart p l)) ≡ specs_of fn (p.new ∷ []))
      × (str_eq p.new.filename fn ≡ false
          → specs_of fn (news (insert_restart p l)) ≡ specs_of fn (news l))
unfolding specs_of insert_restart news
news-insert_restart fn p [] = (λ e. refl, λ e. ground arith)
news-insert_restart fn p (q ∷ l) =
    let ih = news-insert_restart fn p l in (λ e. ground (arith, ih), λ e. ground (arith, ih))

pub news-sort_restarts :
    (fn : String) (l : List RestartPair)
    → length (specs_of fn (news l)) ≤ 1
    → specs_of fn (news (sort_restarts l)) ≡ specs_of fn (news l)
unfolding specs_of sort_restarts news
news-sort_restarts fn [] h = refl
news-sort_restarts fn (p ∷ l) h = ground (
  arith,
  news-insert_restart fn p (sort_restarts l),
  news-sort_restarts fn l,
  none_of_file (specs_of fn (news l)),
)

-- strictly ascending texts
abbrev pub IsAbove : String → List String → Type 0
IsAbove g l = All (λ (h : String). text_ltb g h ≡ true) l

abbrev pub IsAscending : List String → Type 0
IsAscending [] = Unit
IsAscending (g ∷ rest) = IsAbove g rest × IsAscending rest

IsAbove-insert_file :
    (g fn : String) (l : List String)
    → text_ltb g fn ≡ true
    → IsAbove g l
    → IsAbove g (insert_file fn l)
unfolding insert_file
IsAbove-insert_file g fn [] h a = (h, tt)
IsAbove-insert_file g fn (x ∷ l) h a = ground (arith, IsAbove-insert_file g fn l)

IsAbove-of_lt :
    (fn g : String) (l : List String) → text_ltb fn g ≡ true → IsAbove g l → IsAbove fn l
IsAbove-of_lt fn g [] h a = tt
IsAbove-of_lt fn g (x ∷ l) h a =
    (text_ltb_trans fn g x h (text_ltb_asym g x a.0), IsAbove-of_lt fn g l h a.1)

insert_file-IsAscending :
    (fn : String) (l : List String) → IsAscending l → IsAscending (insert_file fn l)
unfolding insert_file
insert_file-IsAscending fn [] s = (tt, tt)
insert_file-IsAscending fn (g ∷ l) s = ground (
  arith,
  IsAbove-of_lt fn g l,
  IsAbove-insert_file g fn l,
  insert_file-IsAscending fn l s.1,
  text_ltb_total fn g,
  str_eq_self g,
)

pub ordered_files-IsAscending :
    (rs : List Runner) (ss : List Service) → IsAscending (ordered_files rs ss)
unfolding ordered_files
ordered_files-IsAscending rs ss = runners_up rs
  where
    services_up : (ss : List Service) → IsAscending (service_files ss)
    services_up [] = tt
    services_up (s ∷ ss) = insert_file-IsAscending s.filename (service_files ss) (services_up ss)

    runners_up : (rs : List Runner) → IsAscending (runner_files rs (service_files ss))
    runners_up [] = services_up ss
    runners_up (r ∷ rs) =
        insert_file-IsAscending r.cfg.filename (runner_files rs (service_files ss)) (runners_up rs)

pub mem_file-above : (g : String) (l : List String) → IsAbove g l → mem_file g l ≡ false
unfolding mem_file
mem_file-above g [] a = refl
mem_file-above g (x ∷ l) a =
    ground (arith, mem_file-above g l a.1, str_eq-eq x g, text_ltb_asym g x a.0)
