-- ===== src/TtySync/Marker.antt =====
-- internal/ttysync/syncwrap.go, first half: the markers of a synchronized update (DECSET 2026),
-- their removal from a batch, and the wrapping of a batch.
pub mod Fast
pub mod Chunks
pub mod Erasure
use claude_master_go.Base.{
  ℕ, zero, suc, ◌+◌, Bool, true, false, ◌&&◌, ◌||◌, Option, none, some, List, [], ◌∷◌, ◌++◌, ◌==◌,
  ltb, leb, if◌then◌else◌, Bytes, length, get_elem?, take, drop, has_prefix,
}

-- ESC [ ? 2 0 2 6, then h or l.
abbrev pub sync_prefix : Bytes
sync_prefix = 0x1b ∷ b'[' ∷ b'?' ∷ b'2' ∷ b'0' ∷ b'2' ∷ b'6' ∷ []

abbrev pub bsu_seq : Bytes
bsu_seq = 0x1b ∷ b'[' ∷ b'?' ∷ b'2' ∷ b'0' ∷ b'2' ∷ b'6' ∷ b'h' ∷ []

abbrev pub esu_seq : Bytes
esu_seq = 0x1b ∷ b'[' ∷ b'?' ∷ b'2' ∷ b'0' ∷ b'2' ∷ b'6' ∷ b'l' ∷ []

-- `bytes.IndexByte`.
pub index_byte : ℕ → Bytes → Option ℕ
index_byte b [] = none
index_byte b (c ∷ cs) =
    if c == b then some 0 else elim (index_byte b cs) [ none ↦ none | some j ↦ some (suc j) ]

-- `rest[7] == 'h' || rest[7] == 'l'`, on at least eight bytes.
abbrev mode_byte : Option ℕ → Bool
mode_byte none = false
mode_byte (some b) = b == b'h' || b == b'l'

-- The test for a whole marker at the start of `rest`.
pub whole_marker : Bytes → Bool
whole_marker rest =
    leb 8 (length rest) && has_prefix rest sync_prefix && mode_byte (get_elem? rest 7)

-- The test for a marker that the end of the data cuts short.
pub cut_marker : Bytes → Bool
cut_marker rest = ltb (length rest) 8 && has_prefix sync_prefix rest

-- `stripSyncMarkers`: the loop over `rest = data[i:]`, with the payload so far. A round takes at
-- least one byte, so as many rounds as there are bytes are enough: `Marker.Fast` shows that the
-- value at no round left is never the answer.
pub strip_loop : ℕ → Bytes → Bytes → Bytes × Bytes
strip_loop fuel payload [] = (payload, [])
strip_loop zero payload (c ∷ cs) = (payload, c ∷ cs)
strip_loop (suc fuel) payload (c ∷ cs) =
    let rest = c ∷ cs in
    let skipped : Bytes × Bytes = elim (index_byte 0x1b rest) [
      | none ↦ (payload ++ rest, [])
      | some j ↦ strip_loop fuel (payload ++ take j rest) (drop j rest)
    ] in
    let removed = strip_loop fuel payload (drop 8 rest) in
    let copied = strip_loop fuel (payload ++ c ∷ []) cs in
    if c == 0x1b
    then (if whole_marker rest
        then removed
        else if cut_marker rest
        then (payload, rest)
        else copied)
    else skipped

unfoldable pub strip_sync_markers : Bytes → Bytes × Bytes
unfolding strip_loop whole_marker cut_marker index_byte
strip_sync_markers d = strip_loop (length d) [] d

unfoldable pub wrap_sync : Bytes → Bytes
wrap_sync payload = bsu_seq ++ (payload ++ esu_seq)
