-- ===== src/Config/Load/Resolved.antt =====
-- internal/config/load.go: every enabled file that ScanServiceFiles lists is loaded under the name that
-- it resolves, or recorded as skipped.
use zpinit.Base.{
  String, ◌≡◌, ◌≢◌, ap, refl, sym, ◌∙◌, ◌⊎◌, inl, inr, true, false, ◌&&◌, Option, none, some, List,
  [], ◌∷◌, arith, if◌then◌else◌, Bool-cases,
}
use zpinit.Config.Types.{Service, Globals, FileError, Config}
use zpinit.Config.Defaults.{apply_service_defaults}
use zpinit.Config.Validate.Service.{ServiceError, validate_service}
use zpinit.Config.Load.{
  file_info, checked, finish_file, named_service, invalid, unknown_keys, Decoded, Decoder,
  LoadError, LoadedFile, loaded, refused, DirEntry, is_service_file, load_service_file,
  load_entries, sort_entries, load_services, ServiceFileInfo, name_or, service_name_for_file,
  is_enabled, is_listed, scan_service_files, decode_failed,
}

unfoldable pub enabled_only : List ServiceFileInfo → List ServiceFileInfo
enabled_only [] = []
enabled_only (i ∷ rest) = let more = enabled_only rest in if i.enabled then i ∷ more else more

-- the service that a decoded file describes, with its defaults
abbrev pub described : Globals → String → Decoded → Service
described g path file =
    apply_service_defaults (named_service path file.service) g file.reload_on_change_set

-- The file decodes, has no unknown key, and describes this service, which is valid.
abbrev pub IsGood : Decoder → Globals → String → Service → Type 0
IsGood d g path s =
    (file : Decoded) × (d.decode_file path ≡ some file)
    × (file.undecoded ≡ [])
    × (s ≡ described g path file)
    × (validate_service s ≡ [])

-- What is wrong with a file: it does not decode, it has unknown keys, or what it describes is not valid.
pub data Refusal (d : Decoder) (g : Globals) (path : String) (e : LoadError) : Type 0 where
  undecodable : d.decode_file path ≡ none → e ≡ decode_failed → Refusal d g path e
  has_unknown :
      (file : Decoded)
      → d.decode_file path ≡ some file
      → file.undecoded ≢ []
      → e ≡ unknown_keys file.undecoded
      → Refusal d g path e
  not_valid :
      (file : Decoded)
      → d.decode_file path ≡ some file
      → file.undecoded ≡ []
      → validate_service (described g path file) ≢ []
      → e ≡ invalid (validate_service (described g path file))
      → Refusal d g path e

-- The files account for the services and the skipped files, in order: a file is good and its service is
-- loaded under the file's name and path, or it is refused and recorded with the reason.
abbrev pub Resolved :
    Decoder → Globals → List ServiceFileInfo → List Service → List FileError → Type 0
Resolved d g [] services skipped = (services ≡ []) × (skipped ≡ [])
Resolved d g (i ∷ rest) services skipped =
    ((s : Service) × (more : List Service) × (services ≡ s ∷ more)
      × (s.name ≡ i.name)
      × (s.filename ≡ i.path)
      × IsGood d g i.path s
      × Resolved d g rest more skipped)
    ⊎ ((f : FileError) × (more : List FileError) × (skipped ≡ f ∷ more)
        × (f.file ≡ i.path)
        × ((e : LoadError) × Refusal d g i.path e × (f.error ≡ d.message e))
        × Resolved d g rest services more)

-- what the load of a file gives
data Outcome (d : Decoder) (g : Globals) (name : String) (r : LoadedFile) : Type 0 where
  served :
      (s : Service)
      → r ≡ loaded s
      → s.name ≡ name_or name (d.decode_file name)
      → s.filename ≡ name
      → IsGood d g name s
      → Outcome d g name r
  unserved : (e : LoadError) → r ≡ refused e → Refusal d g name e → Outcome d g name r

checked-Outcome :
    (d : Decoder) (g : Globals) (name : String) (file : Decoded) (errs : List ServiceError)
    → d.decode_file name ≡ some file
    → file.undecoded ≡ []
    → validate_service (described g name file) ≡ errs
    → Outcome d g name (checked (described g name file) errs)
unfolding apply_service_defaults
checked-Outcome d g name file [] e u v =
    served (described g name file) refl (rw e refl) refl (file, e, u, refl, v)
checked-Outcome d g name file (x ∷ errs) e u v =
    unserved (invalid (x ∷ errs)) refl (not_valid file e u (λ n. cc (v, n)) (ap invalid (sym v)))

finish_file-Outcome :
    (d : Decoder) (g : Globals) (name : String) (file : Decoded) (keys : List String)
    → d.decode_file name ≡ some file
    → file.undecoded ≡ keys
    → Outcome d g name (finish_file name g file keys)
finish_file-Outcome d g name file (k ∷ keys) e u =
    unserved (unknown_keys (k ∷ keys)) refl
      (has_unknown file e (λ n. cc (u, n)) (ap unknown_keys (sym u)))
finish_file-Outcome d g name file [] e u =
    checked-Outcome d g name file (validate_service (described g name file)) e u refl

load_service_file-Outcome :
    (d : Decoder) (g : Globals) (name : String) (o : Option Decoded)
    → d.decode_file name ≡ o
    → Outcome d g name (load_service_file d g name)
unfolding load_service_file
load_service_file-Outcome d g name none e =
    rw (e, load_service_file) (unserved decode_failed refl (undecodable e refl))
load_service_file-Outcome d g name (some file) e =
    rw (e, load_service_file) (finish_file-Outcome d g name file file.undecoded e refl)

entry_lem : (e : DirEntry) → is_service_file e ≡ (is_listed e && is_enabled e.name)
entry_lem e = ground arith

listed :
    (d : Decoder) (e : DirEntry) (rest : List DirEntry)
    → is_service_file e ≡ true
    → enabled_only (scan_service_files d (e ∷ rest))
      ≡ file_info d e.name ∷ enabled_only (scan_service_files d rest)
unfolding enabled_only scan_service_files
listed d e rest h = ground (arith, entry_lem e, h)

unlisted :
    (d : Decoder) (e : DirEntry) (rest : List DirEntry)
    → is_service_file e ≡ false
    → enabled_only (scan_service_files d (e ∷ rest)) ≡ enabled_only (scan_service_files d rest)
unfolding enabled_only scan_service_files
unlisted d e rest h = elim (Bool-cases (is_listed e)) [
  | inl l ↦ ground (arith, entry_lem e, h, l)
  | inr l ↦ rw (l, scan_service_files) refl
]

info_name :
    (d : Decoder) (e : DirEntry)
    → is_service_file e ≡ true
    → (file_info d e.name).name ≡ name_or e.name (d.decode_file e.name)
unfolding service_name_for_file
info_name d e h = ground (arith, h)

entry-served :
    (d : Decoder) (g : Globals) (e : DirEntry) (rest : List DirEntry) (s : Service)
    → is_service_file e ≡ true
    → load_service_file d g e.name ≡ loaded s
    → load_entries d g (e ∷ rest) ≡ (s ∷ (load_entries d g rest).0, (load_entries d g rest).1)
unfolding load_entries
entry-served d g e rest s h l = rw (h, l, load_entries) refl

entry-unserved :
    (d : Decoder) (g : Globals) (e : DirEntry) (rest : List DirEntry) (err : LoadError)
    → is_service_file e ≡ true
    → load_service_file d g e.name ≡ refused err
    → load_entries d g (e ∷ rest) ≡ (
      (load_entries d g rest).0,
      record { file = e.name; error = d.message err } ∷ (load_entries d g rest).1,
    )
unfolding load_entries
entry-unserved d g e rest err h l = rw (h, l, load_entries) refl

entry-ignored :
    (d : Decoder) (g : Globals) (e : DirEntry) (rest : List DirEntry)
    → is_service_file e ≡ false
    → load_entries d g (e ∷ rest) ≡ load_entries d g rest
unfolding load_entries
entry-ignored d g e rest h = rw (h, load_entries) refl

load_entries-Resolved :
    (d : Decoder) (g : Globals) (entries : List DirEntry)
    → Resolved d g
        (enabled_only (scan_service_files d entries))
        (load_entries d g entries).0
        (load_entries d g entries).1
load_entries-Resolved d g [] = unfold enabled_only scan_service_files load_entries in (refl, refl)
load_entries-Resolved d g (e ∷ rest) =
    let ih = load_entries-Resolved d g rest in
    elim (Bool-cases (is_service_file e)) [
      | inr h ↦ rw (unlisted d e rest h, entry-ignored d g e rest h) ih
      | inl h ↦
          rw (listed d e rest h)
            (elim (load_service_file-Outcome d g e.name (d.decode_file e.name) refl) [
              | served s l n f v ↦
                  rw (entry-served d g e rest s h l)
                    (inl (s, (load_entries d g rest).0, refl, n ∙ sym (info_name d e h), f, v, ih))
              | unserved err l why ↦ rw (entry-unserved d g e rest err h l) (
                  inr (
                    record { file = e.name; error = d.message err },
                    (load_entries d g rest).1,
                    refl,
                    refl,
                    (err, why, refl),
                    ih,
                  ))
            ])
    ]

-- Loading and listing the service files of a directory agree. Let the list come in the order of the
-- names, and start from a config without services. Then the enabled files that ScanServiceFiles lists
-- account for the result one by one and in order. A file that decodes, has no unknown key and describes a
-- service that, with its defaults, validation accepts is loaded as that service, under exactly the name
-- that the list resolves for it. A file is skipped only for a reason of its own: it does not decode, it has
-- unknown keys, or validation refuses its service; it is recorded with the text of that reason. Nothing
-- else is loaded or skipped, and the globals stay as they are.
pub load_services-Resolved :
    (d : Decoder) (entries : List DirEntry) (cfg : Config)
    → cfg.services ≡ []
    → cfg.skipped_files ≡ []
    → Resolved d cfg.globals
        (enabled_only (scan_service_files d (sort_entries entries)))
        (load_services d entries cfg).services
        (load_services d entries cfg).skipped_files
      × ((load_services d entries cfg).globals ≡ cfg.globals)
unfolding load_services
load_services-Resolved d entries cfg h k =
    (rw (h, k) (load_entries-Resolved d cfg.globals (sort_entries entries)), refl)
