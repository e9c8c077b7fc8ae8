-- ===== src/Update.antt =====
-- internal/selfupdate: the program replaces itself by the newest release (selfupdate.go, `Update`, with
-- place_unix.go and place_windows.go). The network, the digest and the decoding of the answer are
-- parameters; the disk is what the program's path, the path of the displaced program and the temporary
-- file hold.
pub mod Verified
use claude_master_go.Base.{
  ℕ, ◌/◌, ◌%◌, ◌+◌, ◌==◌, ltb, Bool, true, false, not, ◌&&◌, ◌||◌, Option, none, some, List, [],
  ◌∷◌, ◌++◌, if◌then◌else◌, Bytes, equal, is_empty, has_prefix, drop,
}
use claude_master_go.Tmux.Text.{trim_space, fields}

abbrev pub default_repo : Bytes
default_repo =
    b'4' ∷ b'n' ∷ b'o' ∷ b'h' ∷ b'a' ∷ b'/' ∷ b'c' ∷ b'l' ∷ b'a' ∷ b'u' ∷ b'd' ∷ b'e' ∷ b'-' ∷ b'm'
    ∷ b'a' ∷ b's' ∷ b't' ∷ b'e' ∷ b'r' ∷ b'-' ∷ b'g' ∷ b'o' ∷ []

abbrev pub api_prefix : Bytes
api_prefix =
    b'h' ∷ b't' ∷ b't' ∷ b'p' ∷ b's' ∷ b':' ∷ b'/' ∷ b'/' ∷ b'a' ∷ b'p' ∷ b'i' ∷ b'.' ∷ b'g' ∷ b'i'
    ∷ b't' ∷ b'h' ∷ b'u' ∷ b'b' ∷ b'.' ∷ b'c' ∷ b'o' ∷ b'm' ∷ b'/' ∷ b'r' ∷ b'e' ∷ b'p' ∷ b'o'
    ∷ b's' ∷ b'/' ∷ []

abbrev pub api_suffix : Bytes
api_suffix =
    b'/' ∷ b'r' ∷ b'e' ∷ b'l' ∷ b'e' ∷ b'a' ∷ b's' ∷ b'e' ∷ b's' ∷ b'/' ∷ b'l' ∷ b'a' ∷ b't' ∷ b'e'
    ∷ b's' ∷ b't' ∷ []

abbrev pub site_prefix : Bytes
site_prefix =
    b'h' ∷ b't' ∷ b't' ∷ b'p' ∷ b's' ∷ b':' ∷ b'/' ∷ b'/' ∷ b'g' ∷ b'i' ∷ b't' ∷ b'h' ∷ b'u' ∷ b'b'
    ∷ b'.' ∷ b'c' ∷ b'o' ∷ b'm' ∷ b'/' ∷ []

abbrev pub download_suffix : Bytes
download_suffix =
    b'/' ∷ b'r' ∷ b'e' ∷ b'l' ∷ b'e' ∷ b'a' ∷ b's' ∷ b'e' ∷ b's' ∷ b'/' ∷ b'l' ∷ b'a' ∷ b't' ∷ b'e'
    ∷ b's' ∷ b't' ∷ b'/' ∷ b'd' ∷ b'o' ∷ b'w' ∷ b'n' ∷ b'l' ∷ b'o' ∷ b'a' ∷ b'd' ∷ []

abbrev pub checksums_path : Bytes
checksums_path =
    b'/' ∷ b'c' ∷ b'h' ∷ b'e' ∷ b'c' ∷ b'k' ∷ b's' ∷ b'u' ∷ b'm' ∷ b's' ∷ b'.' ∷ b't' ∷ b'x' ∷ b't'
    ∷ []

abbrev pub asset_prefix : Bytes
asset_prefix =
    b'c' ∷ b'l' ∷ b'a' ∷ b'u' ∷ b'd' ∷ b'e' ∷ b'-' ∷ b'm' ∷ b'a' ∷ b's' ∷ b't' ∷ b'e' ∷ b'r' ∷ b'_'
    ∷ []

abbrev pub exe_suffix : Bytes
exe_suffix = b'.' ∷ b'e' ∷ b'x' ∷ b'e' ∷ []

abbrev pub windows_os : Bytes
windows_os = b'w' ∷ b'i' ∷ b'n' ∷ b'd' ∷ b'o' ∷ b'w' ∷ b's' ∷ []

pub data Error : Type 0 where
  no_answer : Error
  bad_status : ℕ → Error
  bad_body : Error
  no_release : Error
  no_checksums : Error → Error
  not_listed : Error
  wrong_sha : Error
  no_program : Error
  not_writable : Error
  not_written : Error
  not_executable : Error
  not_closed : Error
  not_displaced : Error
  not_placed : Error

pub data Result {ℓ} (A : Type ℓ) : Type ℓ where
  ok : A → Result A
  err : Error → Result A

-- What a request brings: an error, or the status with the body or the error of its reading.
abbrev pub Response : Type 0
Response = Option (ℕ × Option Bytes)

-- The network, `json.Decode` for the field `tag_name` (empty where there is none), `sha256.Sum256`,
-- `strings.ToLower`, and what the build fixes.
pub record World : Type 0 where
  pub get : Bytes → Response
  pub tag_name : Bytes → Option Bytes
  pub sha256 : Bytes → Bytes
  pub lower : Bytes → Bytes
  pub env_repo : Bytes
  pub goos : Bytes
  pub goarch : Bytes

pub record Disk : Type 0 where
  pub program : Option Bytes
  pub displaced : Option Bytes
  pub temp : Option Bytes

-- Which calls of package os fail, and what a failed write leaves. `exe_is_missing` is the failure of the first rename on Windows that
-- `os.IsNotExist` tells.
pub record Faults : Type 0 where
  pub executable : Bool
  pub create : Bool
  pub write : Bool
  pub partial : Bytes
  pub chmod : Bool
  pub close : Bool
  pub displace : Bool
  pub exe_is_missing : Bool
  pub rename : Bool
  pub roll_back : Bool
  pub remove_old : Bool
  pub remove_old_again : Bool
  pub remove_temp : Bool

-- `repo` and `assetName`.
unfoldable pub repo : World → Bytes
repo w = if is_empty w.env_repo then default_repo else w.env_repo

unfoldable pub asset_name : World → Bytes
asset_name w =
    asset_prefix
    ++ (w.goos ++ b'_' ∷ (w.goarch ++ (if equal w.goos windows_os then exe_suffix else [])))

unfoldable pub tag_of : Option Bytes → Result Bytes
tag_of none = err bad_body
tag_of (some []) = err no_release
tag_of (some (c ∷ tag)) = ok (c ∷ tag)

unfoldable pub decoded : World → Option Bytes → Option Bytes
decoded w none = none
decoded w (some body) = w.tag_name body

-- `LatestTag`, on the answer of the API.
unfoldable pub tag_from : World → Response → Result Bytes
tag_from w none = err no_answer
tag_from w (some (status, body)) =
    if not (status == 200) then err (bad_status status) else tag_of (decoded w body)

unfoldable pub latest_tag : World → Result Bytes
latest_tag w = tag_from w (w.get (api_prefix ++ (repo w ++ api_suffix)))

-- `dl`, on the answer.
unfoldable pub body_of : Option Bytes → Result Bytes
body_of none = err bad_body
body_of (some b) = ok b

unfoldable pub download_from : Response → Result Bytes
download_from none = err no_answer
download_from (some (status, body)) =
    if not (status == 200) then err (bad_status status) else body_of body

unfoldable pub download : World → Bytes → Result Bytes
download w path = download_from (w.get (site_prefix ++ (repo w ++ (download_suffix ++ path))))

-- `expectedSHA`: the lines, and the digest in the first of them that is for `name`.
unfoldable pub add_byte : ℕ → List Bytes → List Bytes
add_byte c [] = (c ∷ []) ∷ []
add_byte c (l ∷ ls) = (c ∷ l) ∷ ls

unfoldable pub lines : Bytes → List Bytes
lines [] = [] ∷ []
lines (c ∷ s) = let rest = lines s in if c == 10 then [] ∷ rest else add_byte c rest

unfoldable pub listed : Bytes → List Bytes → Option Bytes
listed name (sha ∷ file ∷ []) = if equal file name then some sha else none
listed name _ = none

unfoldable pub or_later : World → Option Bytes → Option Bytes → Option Bytes
or_later w none later = later
or_later w (some sha) later = some (w.lower sha)

unfoldable pub expected_in : World → Bytes → List Bytes → Option Bytes
expected_in w name [] = none
expected_in w name (l ∷ ls) = or_later w (listed name (fields l)) (expected_in w name ls)

unfoldable pub expected_sha : World → Bytes → Bytes → Option Bytes
expected_sha w checksums name = expected_in w name (lines checksums)

-- `hex.EncodeToString`.
unfoldable pub hex_digit : ℕ → ℕ
hex_digit n = if ltb n 10 then b'0' + n else 87 + n

unfoldable pub hex : Bytes → Bytes
hex [] = []
hex (b ∷ bs) = hex_digit (b / 16) ∷ hex_digit (b % 16) ∷ hex bs

-- `normalize`.
unfoldable pub normalize : Bytes → Bytes
normalize v = let s = trim_space v in if has_prefix s (b'v' ∷ []) then drop 1 s else s

abbrev pub Placed : Type 0
Placed = Disk × Option Error

-- `placeBinary` on Unix.
unfoldable pub place_unix : Faults → Disk → Placed
place_unix f d =
    if f.rename then (d, some not_placed) else (record d { program = d.temp; temp = none }, none)

-- `placeBinary` on Windows: the displaced program of an earlier update is removed, the program is
-- renamed, and the new one takes its place, or the old one again.
unfoldable pub remove_old : Bool → Disk → Disk
remove_old fails d = if fails then d else record d { displaced = none }

unfoldable pub displace : Faults → Disk → Disk
displace f d = if f.displace then d else record d { displaced = d.program; program = none }

unfoldable pub roll_back : Faults → Disk → Disk
roll_back f d =
    if f.displace || f.roll_back then d else record d { program = d.displaced; displaced = none }

unfoldable pub place_windows : Faults → Disk → Placed
place_windows f d =
    if f.displace && not f.exe_is_missing
    then (remove_old f.remove_old d, some not_displaced)
    else if f.rename
    then (roll_back f (displace f (remove_old f.remove_old d)), some not_placed)
    else (
      remove_old f.remove_old_again
          (record (displace f (remove_old f.remove_old d)) { program = d.temp; temp = none }),
      none,
    )

unfoldable pub place : World → Faults → Disk → Placed
place w f d = if equal w.goos windows_os then place_windows f d else place_unix f d

-- The deferred `os.Remove` of the temporary file.
unfoldable pub clean : Faults → Placed → Placed
clean f (d, e) = (if f.remove_temp then d else record d { temp = none }, e)

-- `replaceSelf`.
unfoldable pub replace_self : World → Faults → Bytes → Disk → Placed
replace_self w f bin d =
    if f.executable
    then (d, some no_program)
    else if f.create
    then (d, some not_writable)
    else if f.write
    then clean f (record d { temp = some f.partial }, some not_written)
    else if f.chmod
    then clean f (record d { temp = some bin }, some not_executable)
    else if f.close
    then clean f (record d { temp = some bin }, some not_closed)
    else clean f (place w f (record d { temp = some bin }))

-- The result of `Update`: an error, the newest tag, or the tag that is now in place.
pub data Outcome : Type 0 where
  failed : Error → Outcome
  is_newest : Bytes → Outcome
  replaced : Bytes → Outcome

unfoldable pub settle : Bytes → Placed → Disk × Outcome
settle tag (d, none) = (d, replaced tag)
settle tag (d, some e) = (d, failed e)

unfoldable pub check_sha : World → Faults → Bytes → Bytes → Option Bytes → Disk → Disk × Outcome
check_sha w f tag bin none d = (d, failed not_listed)
check_sha w f tag bin (some want) d =
    if not (equal (hex (w.sha256 bin)) want)
    then (d, failed wrong_sha)
    else settle tag (replace_self w f bin d)

unfoldable pub with_sums : World → Faults → Bytes → Bytes → Result Bytes → Disk → Disk × Outcome
with_sums w f tag bin (err e) d = (d, failed (no_checksums e))
with_sums w f tag bin (ok sums) d = check_sha w f tag bin (expected_sha w sums (asset_name w)) d

unfoldable pub with_binary : World → Faults → Bytes → Result Bytes → Disk → Disk × Outcome
with_binary w f tag (err e) d = (d, failed e)
with_binary w f tag (ok bin) d = with_sums w f tag bin (download w checksums_path) d

unfoldable pub with_tag : World → Faults → Bytes → Result Bytes → Disk → Disk × Outcome
with_tag w f current (err e) d = (d, failed e)
with_tag w f current (ok tag) d =
    if equal (normalize tag) (normalize current)
    then (d, is_newest tag)
    else with_binary w f tag (download w (b'/' ∷ asset_name w)) d

-- `Update`.
unfoldable pub update : World → Faults → Bytes → Disk → Disk × Outcome
update w f current d = with_tag w f current (latest_tag w) d
