-- ===== src/Git/Library.antt =====
-- What the program calls of libgit2, which is not part of the repository: each call of a `Libgit2`
-- takes the world (the disk and the library's own state) to the next one. A call that fails, with an
-- error code other than 0, gives no value. The result texts of GitServiceCommon.h are here too.
use text.Mathlib.Text.{◌==◌ as str_eq}
use gitrpc.Prelude.{ℕ, ◌≡◌, refl, Bool, true, false, Option, none, some, List, String}

pub data Next (A : Type 0) : Type 0 where
  item : A → Next A
  over : Next A
  failed : Next A

pub record Libgit2 : Type 1 where
  pub World : Type 0
  pub Repository : Type 0
  pub Odb : Type 0
  pub Writepack : Type 0
  pub Oid : Type 0
  pub Reference : Type 0
  pub RefIterator : Type 0
  -- giterr_last()->message
  pub last_error : World → Option String
  pub repository_open_bare : String → World → Option Repository × World
  pub repository_open : String → World → Option Repository × World
  pub repository_odb : Repository → World → Option Odb × World
  pub repository_free : Repository → World → World
  pub repository_set_head : Repository → String → World → Bool × World
  pub odb_write_pack : Odb → World → Option Writepack × World
  pub odb_free : Odb → World → World
  pub writepack_append : Writepack → List ℕ → World → Bool × World
  pub writepack_commit : Writepack → World → Bool × World
  pub writepack_free : Writepack → World → World
  pub oid_fromstr : String → World → Option Oid × World
  pub reference_create : Repository → String → Oid → World → Option Reference × World
  pub reference_free : Reference → World → World
  pub reference_iterator_new : Repository → World → Option RefIterator × World
  pub reference_next : RefIterator → World → Next Reference × World
  pub reference_iterator_free : RefIterator → World → World
  -- The references that git_reference_foreach calls back with, in order, and the world before it does.
  pub reference_foreach : Repository → World → List Reference × World
  pub reference_name : Reference → String
  -- git_repository_init_ext, with the options MKPATH, BARE and NO_REINIT.
  pub repository_init : String → World → Option Repository × World

-- The two ways of a library call.
abbrev pub attempt {ℓ κ} : {A W : Type ℓ} {B : Type κ} → Option A × W → (W → B) → (A → W → B) → B
attempt (none, w) failed_ next = failed_ w
attempt (some a, w) failed_ next = next a w

abbrev pub checked {ℓ κ} : {W : Type ℓ} {B : Type κ} → Bool × W → (W → B) → (W → B) → B
checked (false, w) failed_ next = failed_ w
checked (true, w) failed_ next = next w

-- A statement about both ways of a call is proved for each of them.
pub attempt_rule {ℓ κ μ} :
    {A W : Type ℓ} {B : Type κ} (P : B → Type μ) (r : Option A × W) (failed_ : W → B)
    (next : A → W → B)
    → (r.0 ≡ none → P (failed_ r.1))
    → ((a : A) → r.0 ≡ some a → P (next a r.1))
    → P (attempt r failed_ next)
attempt_rule P (none, w) failed_ next on_failure on_value = on_failure refl
attempt_rule P (some a, w) failed_ next on_failure on_value = on_value a refl

pub checked_rule {ℓ κ μ} :
    {W : Type ℓ} {B : Type κ} (P : B → Type μ) (r : Bool × W) (failed_ next : W → B)
    → (r.0 ≡ false → P (failed_ r.1))
    → (r.0 ≡ true → P (next r.1))
    → P (checked r failed_ next)
checked_rule P (false, w) failed_ next on_failure on_success = on_failure refl
checked_rule P (true, w) failed_ next on_failure on_success = on_success refl

-- Two ways of going on from the same call.
pub attempt_both {ℓ κ μ ν} :
    {A W : Type ℓ} {B : Type κ} {C : Type μ} (P : B → C → Type ν) (r : Option A × W)
    (failed_ : W → B) (next : A → W → B) (failed1 : W → C) (next1 : A → W → C)
    → ((w : W) → P (failed_ w) (failed1 w))
    → ((a : A) (w : W) → P (next a w) (next1 a w))
    → P (attempt r failed_ next) (attempt r failed1 next1)
attempt_both P (none, w) failed_ next failed1 next1 on_failure on_value = on_failure w
attempt_both P (some a, w) failed_ next failed1 next1 on_failure on_value = on_value a w

pub checked_both {ℓ κ μ ν} :
    {W : Type ℓ} {B : Type κ} {C : Type μ} (P : B → C → Type ν) (r : Bool × W)
    (failed_ next : W → B) (failed1 next1 : W → C)
    → ((w : W) → P (failed_ w) (failed1 w))
    → ((w : W) → P (next w) (next1 w))
    → P (checked r failed_ next) (checked r failed1 next1)
checked_both P (false, w) failed_ next failed1 next1 on_failure on_success = on_failure w
checked_both P (true, w) failed_ next failed1 next1 on_failure on_success = on_success w

abbrev pub success : String
success = "success"

-- `strcmp(msg, "success") == 0`, and the comparison of a std::string with "success".
abbrev pub is_success : String → Bool
is_success msg = str_eq msg success

module _ (git : Libgit2) where
  open git use {World, last_error}

  -- Common::CheckForError: the library's last error, and the empty text if it has none.
  unfoldable pub check_for_error : World → String
  check_for_error w = elim (last_error w) [ none ↦ "" | some message ↦ message ]
