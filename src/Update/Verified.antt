-- ===== src/Update/Verified.antt =====
-- The program is replaced by the published release or not at all (internal/selfupdate/selfupdate.go).
use claude_master_go.Base.{
  ◌≡◌, refl, sym, ap, ◌∙◌, inl, inr, ◌⊎◌, true, false, not, ◌&&◌, Option, none, some, ◌∷◌, Bytes,
  equal, equal→eq, Bool-cases, if-cases, arith,
}
use claude_master_go.Update.{
  windows_os, checksums_path, Error, not_listed, wrong_sha, no_program, not_writable, not_written,
  not_executable, not_closed, not_displaced, not_placed, no_checksums, Result, ok, err, World, Disk,
  Faults, asset_name, latest_tag, download, expected_sha, hex, normalize, Placed, place_unix,
  remove_old, displace, roll_back, place_windows, place, clean, replace_self, Outcome, failed,
  is_newest, replaced, settle, check_sha, with_sums, with_binary, with_tag, update,
}

-- The binary is a release of another version, and its digest is the one that the release lists for it.
pub record Verified (w : World) (current tag bin : Bytes) : Type 0 where
  pub newest : latest_tag w ≡ ok tag
  pub is_new : equal (normalize tag) (normalize current) ≡ false
  pub sums : Bytes
  pub fetched : download w (b'/' ∷ asset_name w) ≡ ok bin
  pub checksums : download w checksums_path ≡ ok sums
  pub listed_sha : expected_sha w sums (asset_name w) ≡ some (hex (w.sha256 bin))

-- The old program is lost only on Windows, where it was displaced, and neither the new one nor the old
-- one could take its place.
pub IsLost : World → Faults → Type 0
IsLost w f =
    (equal w.goos windows_os ≡ true)
    × (f.displace ≡ false)
    × (f.rename ≡ true)
    × (f.roll_back ≡ true)

-- What an update comes to.
pub data Verdict (w : World) (f : Faults) (current : Bytes) (d : Disk)
    : Disk × Outcome → Type 0 where
  unchanged :
      (tag : Bytes)
      → latest_tag w ≡ ok tag
      → equal (normalize tag) (normalize current) ≡ true
      → Verdict w f current d (d, is_newest tag)
  updated :
      (tag bin : Bytes) (d' : Disk)
      → Verified w current tag bin
      → d'.program ≡ some bin
      → Verdict w f current d (d', replaced tag)
  not_updated :
      (e : Error) (d' : Disk)
      → (d'.program ≡ d.program) ⊎ IsLost w f
      → Verdict w f current d (d', failed e)

-- What the last steps leave: the binary in place, or an error and the old program.
data Replaced (w : World) (f : Faults) (bin : Bytes) (d : Disk) : Placed → Type 0 where
  done : (d' : Disk) → d'.program ≡ some bin → Replaced w f bin d (d', none)
  kept :
      (e : Error) (d' : Disk)
      → (d'.program ≡ d.program) ⊎ IsLost w f
      → Replaced w f bin d (d', some e)

module _ (w : World) (f : Faults) (bin : Bytes) (d : Disk) where
  clean_program : (p : Placed) → (clean f p).0.program ≡ p.0.program
  unfolding clean
  clean_program (d', e) = ground arith

  clean-Replaced : (p : Placed) → Replaced w f bin d p → Replaced w f bin d (clean f p)
  unfolding clean
  clean-Replaced p (done d' h) = done _ (clean_program (d', none) ∙ h)
  clean-Replaced p (kept e d' (inl h)) = kept e _ (inl (clean_program (d', some e) ∙ h))
  clean-Replaced p (kept e d' (inr lost)) = kept e _ (inr lost)

  place_unix-Replaced : Replaced w f bin d (place_unix f (record d { temp = some bin }))
  unfolding place_unix
  place_unix-Replaced =
      if-cases (Replaced w f bin d) f.rename (λ _. kept not_placed _ (inl refl)) (λ _. done _ refl)

  rolled_back :
      equal w.goos windows_os ≡ true
      → f.rename ≡ true
      → ((roll_back f (displace f (remove_old f.remove_old (record d { temp = some bin })))).program
          ≡ d.program)
        ⊎ IsLost w f
  unfolding roll_back displace remove_old IsLost
  rolled_back win bad = elim (Bool-cases f.displace) [
    | inl e ↦ inl (ground arith)
    | inr e ↦ elim (Bool-cases f.roll_back) [
      | inl b ↦ inr (win, e, bad, b)
      | inr b ↦ inl (ground arith)
    ]
  ]

  place_windows-Replaced :
      equal w.goos windows_os ≡ true
      → Replaced w f bin d (place_windows f (record d { temp = some bin }))
  unfolding place_windows
  place_windows-Replaced win =
      if-cases (Replaced w f bin d) (f.displace && not f.exe_is_missing)
        (λ _. kept not_displaced _ (inl removed))
        (λ _.
          if-cases (Replaced w f bin d) f.rename (λ bad. kept not_placed _ (rolled_back win bad))
            (λ _. done _ put))
    where
      removed : (remove_old f.remove_old (record d { temp = some bin })).program ≡ d.program
      removed = unfold remove_old in ground arith

      put :
          (remove_old f.remove_old_again
            (record (displace f (remove_old f.remove_old (record d { temp = some bin }))) {
              program = some bin;
              temp = none;
            })).program
          ≡ some bin
      put = unfold remove_old in ground arith

  place-Replaced : Replaced w f bin d (place w f (record d { temp = some bin }))
  unfolding place
  place-Replaced =
      if-cases (Replaced w f bin d) (equal w.goos windows_os) place_windows-Replaced
        (λ _. place_unix-Replaced)

  replace_self-Replaced : Replaced w f bin d (replace_self w f bin d)
  unfolding replace_self
  replace_self-Replaced =
      let P = Replaced w f bin d in
      if-cases P f.executable (λ _. kept no_program d (inl refl))
        (λ _.
          if-cases P f.create (λ _. kept not_writable d (inl refl))
            (λ _.
              if-cases P f.write (λ _. clean-Replaced _ (kept not_written _ (inl refl)))
                (λ _.
                  if-cases P f.chmod (λ _. clean-Replaced _ (kept not_executable _ (inl refl)))
                    (λ _.
                      if-cases P f.close (λ _. clean-Replaced _ (kept not_closed _ (inl refl)))
                        (λ _. clean-Replaced _ place-Replaced)))))

module _ (w : World) (f : Faults) (current : Bytes) (d : Disk) (tag : Bytes) where
  settle-Verdict :
      (bin : Bytes) (p : Placed)
      → Verified w current tag bin
      → Replaced w f bin d p
      → Verdict w f current d (settle tag p)
  unfolding settle
  settle-Verdict bin p v (done d' h) = updated tag bin d' v h
  settle-Verdict bin p v (kept e d' h) = not_updated e d' h

  module _ (newest : latest_tag w ≡ ok tag)
      (is_new : equal (normalize tag) (normalize current) ≡ false) where
    check_sha-Verdict :
        (bin sums : Bytes) (o : Option Bytes)
        → download w (b'/' ∷ asset_name w) ≡ ok bin
        → download w checksums_path ≡ ok sums
        → expected_sha w sums (asset_name w) ≡ o
        → Verdict w f current d (check_sha w f tag bin o d)
    unfolding check_sha
    check_sha-Verdict bin sums none e g h = not_updated not_listed d (inl refl)
    check_sha-Verdict bin sums (some want) e g h =
        elim (Bool-cases (equal (hex (w.sha256 bin)) want)) [
          | inl t ↦ rw t (
              settle-Verdict bin (replace_self w f bin d)
                (record {
                  newest = newest;
                  is_new = is_new;
                  sums = sums;
                  fetched = e;
                  checksums = g;
                  listed_sha = h ∙ ap some (sym (equal→eq (hex (w.sha256 bin)) want t));
                })
                (replace_self-Replaced w f bin d))
          | inr n ↦ rw n (not_updated wrong_sha d (inl refl))
        ]

    with_sums-Verdict :
        (bin : Bytes) (r : Result Bytes)
        → download w (b'/' ∷ asset_name w) ≡ ok bin
        → download w checksums_path ≡ r
        → Verdict w f current d (with_sums w f tag bin r d)
    unfolding with_sums
    with_sums-Verdict bin (err x) e g = not_updated (no_checksums x) d (inl refl)
    with_sums-Verdict bin (ok sums) e g =
        check_sha-Verdict bin sums (expected_sha w sums (asset_name w)) e g refl

    with_binary-Verdict :
        (r : Result Bytes)
        → download w (b'/' ∷ asset_name w) ≡ r
        → Verdict w f current d (with_binary w f tag r d)
    unfolding with_binary
    with_binary-Verdict (err x) e = not_updated x d (inl refl)
    with_binary-Verdict (ok bin) e = with_sums-Verdict bin (download w checksums_path) e refl

with_tag-Verdict :
    (w : World) (f : Faults) (current : Bytes) (d : Disk) (r : Result Bytes)
    → latest_tag w ≡ r
    → Verdict w f current d (with_tag w f current r d)
unfolding with_tag
with_tag-Verdict w f current d (err x) e = not_updated x d (inl refl)
with_tag-Verdict w f current d (ok tag) e =
    elim (Bool-cases (equal (normalize tag) (normalize current))) [
      | inl t ↦ rw t (unchanged tag e t)
      | inr n ↦
          rw n (with_binary-Verdict w f current d tag e n (download w (b'/' ∷ asset_name w)) refl)
    ]

-- Whatever the network answers and whichever calls fail: `Update` reports a new tag only if the
-- program is now the binary of that release, whose SHA-256 is the one that the release lists for it;
-- it reports the newest tag only if this is the current version, and changes nothing; and with an error
-- the program is as before, unless it was lost on Windows, where both renames behind its displacement
-- failed.
pub update-Verdict :
    (w : World) (f : Faults) (current : Bytes) (d : Disk)
    → Verdict w f current d (update w f current d)
unfolding update
update-Verdict w f current d = with_tag-Verdict w f current d (latest_tag w) refl
