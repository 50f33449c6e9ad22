-- ===== src/Bootstrap/Download.antt =====
-- `HttpsRedirect`, `download` and `download_worker` of scripts/bootstrap.py.
pub mod Received
use grepglint.Base.{
  ℕ, zero, suc, ◌+◌, ◌/◌, ◌%◌, Bool, true, false, Option, none, some, List, [], ◌∷◌, ◌++◌, ltb, leb,
  if◌then◌else◌, length, take, Text, points, starts_with,
}
use grepglint.Base.Result.{Exception, Result, ensure, invalid, value_error, os_error, err, ok}
use grepglint.Bootstrap.Machine.{
  ◌>>=◌, ◌>>◌, Machine, Exec, pure, lift, require_that, observe, ran, looked,
}
use grepglint.Bootstrap.Process.{run_process, result_of}
use grepglint.Bootstrap.Paths.{FilePath, path_text}

unfoldable pub allows_redirect : Text → Result (Unit {0})
unfolding starts_with
allows_redirect url = ensure (starts_with (points "https://") url) "Non-HTTPS redirect refused"

-- One pass of the loop: `response.read` returns a block, which `output.write` takes or raises on,
-- or it raises itself.
pub data Read : Type 0 where
  arrives : List ℕ → Read
  read_fails : Exception → Read
  write_fails : List ℕ → Exception → Read

-- The passes of the loop, whether `flush` and `os.fsync` return, and how many of the bytes that were
-- written are in the file once the `with` statement has closed it on an exception.
pub record Transfer : Type 0 where
  pub reads : List Read
  pub synced : Result (Unit {0})
  pub kept : ℕ

-- The loop; a block of no bytes ends it. The second part is what has been written.
unfoldable pub receive_blocks : ℕ → ℕ → List ℕ → List Read → Result (Unit {0}) × List ℕ
receive_blocks cap size written [] = (ok tt, written)
receive_blocks cap size written (read_fails e ∷ reads) = (err e, written)
receive_blocks cap size written (write_fails [] e ∷ reads) = (ok tt, written)
receive_blocks cap size written (write_fails (b ∷ bs) e ∷ reads) =
    if leb (size + length (b ∷ bs)) cap
    then (err e, written ++ b ∷ bs)
    else (err (invalid "Download exceeded byte limit"), written)
receive_blocks cap size written (arrives [] ∷ reads) = (ok tt, written)
receive_blocks cap size written (arrives (b ∷ bs) ∷ reads) =
    elim (leb (size + length (b ∷ bs)) cap) [
      | true ↦ receive_blocks cap (size + length (b ∷ bs)) (written ++ b ∷ bs) reads
      | false ↦ (err (invalid "Download exceeded byte limit"), written)
    ]

-- `flush`, `os.fsync` and the end of the `with` statement: the result, and the file that is left.
unfoldable pub close_file :
    ℕ → Result (Unit {0}) → Result (Unit {0}) × List ℕ → Result (Unit {0}) × Option (List ℕ)
close_file kept synced (err e, written) = (err e, some (take kept written))
close_file kept (err e) (ok u, written) = (err e, some (take kept written))
close_file kept (ok v) (ok u, written) = (ok tt, some written)

-- `opener.open` gives the response or raises; `path.open("xb")` raises if the file is there.
unfoldable pub download_worker : ℕ → Bool → Result Transfer → Result (Unit {0}) × Option (List ℕ)
unfolding close_file receive_blocks
download_worker cap present (err e) = (err e, none)
download_worker cap true (ok t) = (err os_error, none)
download_worker cap false (ok t) = close_file t.kept t.synced (receive_blocks cap 0 [] t.reads)

-- `except ValueError`: a decoding error is one, the others pass.
as_failed_download : Exception → Exception
as_failed_download (invalid message) =
    invalid "Download failed or exceeded its absolute elapsed-time limit"
as_failed_download value_error =
    invalid "Download failed or exceeded its absolute elapsed-time limit"
as_failed_download e = e

unfoldable pub rename {ℓ} : {A : Type ℓ} → Result A → Result A
unfolding as_failed_download
rename (ok a) = ok a
rename (err e) = err (as_failed_download e)

-- `str(n)`, for a number of at most 20 digits.
decimal_from : ℕ → ℕ → Text
decimal_from zero n = []
decimal_from (suc fuel) n =
    let higher = decimal_from fuel (n / 10) in
    if ltb n 10 then (48 + n) ∷ [] else higher ++ (48 + n % 10) ∷ []

unfoldable pub decimal : ℕ → Text
unfolding decimal_from
decimal n = decimal_from 20 n

module _ (machine : Machine) where
  -- `path.resolve()`
  unfoldable pub resolve_path : FilePath → Exec FilePath
  resolve_path p =
      observe (λ log. machine.resolve log p) (λ q. looked p) >>= λ place. lift (rename place)

  -- `download(url, path, cap)`
  unfoldable pub download : Text → FilePath → ℕ → Exec (Unit {0})
  download url p cap = do
    require_that (starts_with (points "https://") url) "Only HTTPS downloads are allowed"
    place ← resolve_path p
    let args =
        machine.interpreter
        ∷ machine.script
        ∷ points "__download"
        ∷ url
        ∷ path_text place
        ∷ decimal cap
        ∷ []
    out ← observe (λ log. result_of (run_process 4096 (machine.start log args))) (λ r. ran args r)
    lift (rename out) >>= λ done. pure tt
