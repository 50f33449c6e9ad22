-- ===== src/Bootstrap/Files.antt =====
-- `regular`, `path_check`, `run` and `local_lock` of scripts/bootstrap.py. The paths and programs
-- that the f-strings put into a message are left out.
use grepglint.Base.{
  ℕ, ◌+◌, ◌*◌, ◌/◌, ◌%◌, ◌^◌, Bool, true, false, not, ◌&&◌, ◌||◌, Option, none, some, List, leb,
  eqb, length, take, points, same_text, one_of,
}
use grepglint.Bootstrap.Machine.{File, Kind, Info}
use grepglint.Base.Result.{Result, ensure, ◌>>◌, os_error, err, ok}
use grepglint.Bootstrap.Paths.{FilePath, is_absolute}

abbrev pub cap_bytes : ℕ
cap_bytes = 128 * 1024 * 1024

abbrev pub meta_cap : ℕ
meta_cap = 1024 * 1024

-- `mode & (1 << n) != 0`
abbrev pub bit : ℕ → ℕ → Bool
bit n mode = eqb (mode / 2 ^ n % 2) 1

-- `mode & 0o022 == 0` and `mode & 0o077 == 0`
abbrev pub not_writable : ℕ → Bool
not_writable mode = not (bit 4 mode) && not (bit 1 mode)

abbrev pub is_private : ℕ → Bool
is_private mode = eqb (mode % 64) 0

abbrev pub is_kind : Kind → Kind → Bool
is_kind Kind.regular_file Kind.regular_file = true
is_kind Kind.directory Kind.directory = true
is_kind Kind.symlink Kind.symlink = true
is_kind Kind.special Kind.special = true
is_kind _ _ = false

unfoldable pub is_safe_file : ℕ → Info → Bool
is_safe_file cap info =
    is_kind info.kind Kind.regular_file
    && info.mine
    && eqb info.links 1
    && leb info.size cap
    && not_writable info.mode

-- What `regular` makes of the file that it opens; `O_NOFOLLOW` makes `os.open` raise at a symlink.
unfoldable pub regular_bytes : ℕ → Option File → Result (List ℕ)
unfolding is_safe_file
regular_bytes cap none = err os_error
regular_bytes cap (some file) = do
  ensure (is_safe_file cap file.info) "Unsafe or oversized file"
  let bytes = take (cap + 1) file.bytes
  ensure (leb (length bytes) cap) "File grew beyond its limit"
  ok bytes

-- One step of the loop of `path_check`, once the path is there; `lstat` raises if it is gone.
unfoldable pub check_ancestor : Option Info → Result (Unit {0})
check_ancestor none = err os_error
check_ancestor (some info) = do
  ensure (not (is_kind info.kind Kind.symlink)) "Symlink path refused"
  -- the test and the guard of `if` as one condition
  ensure
      (not (is_kind info.kind Kind.directory)
        || ((info.root || info.mine) && (not_writable info.mode || bit 9 info.mode)))
      "Unsafe ancestor directory"

unfoldable pub is_plain_path : FilePath → Bool
unfolding is_absolute same_text
is_plain_path p = is_absolute p && not (one_of (points "..") p.parts)

unfoldable pub is_lock : Info → Bool
is_lock info =
    is_kind info.kind Kind.regular_file && info.mine && eqb info.links 1 && is_private info.mode

unfoldable pub lock_info : Option File → Result (Unit {0})
unfolding is_lock
lock_info none = err os_error
lock_info (some file) = ensure (is_lock file.info) "Unsafe lock"
