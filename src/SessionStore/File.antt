-- ===== src/SessionStore/File.antt =====
-- The file that keeps a session's identifier over restarts: the functions at the end of
-- gateway/session_store.rs, and what `run` of gateway/client.rs does with them. A path and the
-- contents of a file are texts; `std::fs` and the uuid crate are parameters.
use mathlib.Core.List.{append-nil}
use iog.Prelude.{
  ℕ, ◌<◌, ◌^◌, ◌≡◌, refl, sym, ap, ◌∙◌, Bool, true, ◌&&◌, ◌||◌, Option, none, some, List, [], ◌∷◌,
  ◌++◌, arith, ◌==◌, leb, All, Option-cases, inl, inr,
}
use iog.Configuration.{codes}
use iog.Text.{trim, IsBlank, IsInk, is_whitespace, trim-append}

-- `fs::write` and `fs::read_to_string`; `false` and `none` are errors.
pub record Files (F : Type 0) : Type 0 where
  pub write : F → List ℕ → List ℕ → Bool × F
  pub read_to_string : F → List ℕ → Option (List ℕ)

-- A file that has been written reads back.
pub record FilesLaws (F : Type 0) (fs : Files F) : Type 0 where
  pub read-write :
      (f : F) (path text : List ℕ)
      → (fs.write f path text).0 ≡ true
      → fs.read_to_string (fs.write f path text).1 path ≡ some text

-- `to_string` and `Uuid::parse_str`.
pub record Uuid : Type 0 where
  pub to_string : ℕ → List ℕ
  pub parse_str : List ℕ → Option ℕ

-- The characters of the hyphenated form.
abbrev pub is_hyphenated : ℕ → Bool
is_hyphenated c = (leb b'0' c && leb c b'9') || (leb b'a' c && leb c b'f') || c == b'-'

pub record UuidLaws (u : Uuid) : Type 0 where
  pub parse_str-to_string : (id : ℕ) → id < 2 ^ 128 → u.parse_str (u.to_string id) ≡ some id
  pub parse_str_lt : (s : List ℕ) (id : ℕ) → u.parse_str s ≡ some id → id < 2 ^ 128
  pub to_string_hyphenated : (id : ℕ) → All (λ c. is_hyphenated c ≡ true) (u.to_string id)

abbrev session_file : List ℕ
session_file = codes "iog_session_id"

-- `path.map(PathBuf::from).unwrap_or_else(|| PathBuf::from(SESSION_FILE))`
abbrev pub file_path : Option (List ℕ) → List ℕ
file_path none = session_file
file_path (some path) = path

abbrev unwrap_or {ℓ} : {A : Type ℓ} → Option A → A → A
unwrap_or none d = d
unwrap_or (some a) d = a

module _ {F : Type 0} ⦃fs : Files F⦄ ⦃u : Uuid⦄ where
  unfoldable pub persist_session_id : F → ℕ → Option (List ℕ) → Bool × F
  persist_session_id f session_id path = fs.write f (file_path path) (u.to_string session_id)

  unfoldable pub load_session_id : F → Option (List ℕ) → Option ℕ
  unfolding trim
  load_session_id f path = elim (fs.read_to_string f (file_path path)) [
    | some contents ↦ u.parse_str (trim contents)
    | none ↦ none
  ]

  -- The beginning of the client's `run`, with the identifier that it would generate. The result
  -- tells whether it could be persisted, which the client only logs.
  unfoldable pub restore_or_create : F → ℕ → ℕ × Bool × F
  unfolding persist_session_id load_session_id
  restore_or_create f generated =
      let session_id = unwrap_or (load_session_id f none) generated in
      let (persisted, f') = persist_session_id f session_id none in (session_id, persisted, f')

is_hyphenated-IsInk : (s : List ℕ) → All (λ c. is_hyphenated c ≡ true) s → All IsInk s
unfolding is_whitespace
is_hyphenated-IsInk [] h = tt
is_hyphenated-IsInk (c ∷ s) h = (ground arith, is_hyphenated-IsInk s h.1)

module _ {F : Type 0} ⦃fs : Files F⦄ ⦃u : Uuid⦄ (files : FilesLaws F fs) (uuids : UuidLaws u) where
  -- A file that holds an identifier of 128 bits, with any blanks before and after it, loads as that
  -- identifier.
  load_session_id_padded :
      (f : F) (path : Option (List ℕ)) (pre post : List ℕ) (id : ℕ)
      → id < 2 ^ 128
      → All IsBlank pre
      → All IsBlank post
      → fs.read_to_string f (file_path path) ≡ some (pre ++ (u.to_string id ++ post))
      → load_session_id f path ≡ some id
  unfolding load_session_id
  load_session_id_padded f path pre post id fits a b e =
      rw
        (
          e,
          load_session_id,
          trim-append pre (u.to_string id) post a
              (is_hyphenated-IsInk (u.to_string id) (uuids.to_string_hyphenated id)) b,
        )
        (uuids.parse_str-to_string id fits)

  -- An identifier of 128 bits that has been persisted is what loads next; and a path without a
  -- readable file loads none.
  pub load_session_id-persist_session_id :
      (f : F) (path : Option (List ℕ)) (id : ℕ)
      → id < 2 ^ 128
      → let (ok, f') = persist_session_id f id path in
        (ok ≡ true → load_session_id f' path ≡ some id)
        × (fs.read_to_string f (file_path path) ≡ none → load_session_id f path ≡ none)
  unfolding persist_session_id load_session_id
  load_session_id-persist_session_id f path id fits = (
    λ ok. load_session_id_padded (persist_session_id f id path).1 path [] [] id fits tt tt (
        files.read-write f (file_path path) (u.to_string id) ok
        ∙ ap some (sym (append-nil (u.to_string id)))),
    λ e. rw (e, load_session_id) refl,
  )

  loaded_lt : (f : F) (id : ℕ) → load_session_id f none ≡ some id → id < 2 ^ 128
  unfolding load_session_id
  loaded_lt f id e = elim (Option-cases (fs.read_to_string f (file_path none))) [
    | inl missing ↦ ground arith
    | inr (text, read) ↦ uuids.parse_str_lt (trim text) id (ground arith)
  ]

  restored_lt :
      (f : F) (generated : ℕ) → generated < 2 ^ 128 → (restore_or_create f generated).0 < 2 ^ 128
  unfolding restore_or_create load_session_id
  restored_lt f generated fits = elim (Option-cases (load_session_id f none)) [
    | inl e ↦ rw (e, restore_or_create) fits
    | inr (id, e) ↦ rw (e, restore_or_create) (loaded_lt f id e)
  ]

  -- The identifier survives restarts of the client: once a start has persisted it, the next
  -- start gets the same identifier, whatever it would generate. The first identifier generated is
  -- of 128 bits.
  pub restore_or_create_again :
      (f : F) (first second : ℕ)
      → first < 2 ^ 128
      → let (id, ok, f') = restore_or_create f first in
        ok ≡ true → (restore_or_create f' second).0 ≡ id
  unfolding restore_or_create
  restore_or_create_again f first second fits ok =
      let (id, _, f') = restore_or_create f first in
      let found = (load_session_id-persist_session_id f none id (restored_lt f first fits)).0 ok in
      rw (found, restore_or_create) refl
