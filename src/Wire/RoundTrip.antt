-- ===== src/Wire/RoundTrip.antt =====
-- What a client sends is what the proxy's server takes out (internal/client and internal/ptyproxy).
use claude_master_go.Base.{
  ℕ, zero, suc, ◌-◌, ◌/◌, ◌%◌, ◌≡◌, ◌≤◌, ◌<◌, refl, ap, ◌∙◌, inl, inr, true, false, List, [], ◌∷◌,
  ◌++◌, ◌==◌, ltb, Bytes, length, ℤ, pos, negsuc, arith, length-append, take-length, drop-length,
  take-append, drop-append, Bool-cases, map,
}
use claude_master_go.Wire.{
  Action, resized, scrolled, pasted, act, be_16, be_32, int_16, resize_turn, scroll_turn,
  payload_turn, image_turn, cut, text_turn, turn, turns, parse_client_input, clamp16, uint_16,
  put_16, send_scroll, send_resize, send_image, max_image_bytes,
}

pub data Message : Type 0 where
  resize : (rows cols : ℕ) → Message
  scroll_by : ℤ → Message
  image : Bytes → (code : ℕ) → Message

-- The bytes that the client sends for it.
unfoldable pub sent : Message → Bytes
sent (resize rows cols) = send_resize rows cols
sent (scroll_by dy) = send_scroll dy
sent (image payload code) = send_image payload code

-- What it is to do; a scroll is limited to 16 bits.
unfoldable pub meaning : Message → Action
meaning (resize rows cols) = resized rows cols
meaning (scroll_by dy) = scrolled (clamp16 dy)
meaning (image payload code) = pasted payload code

-- A size of 16 bits, and an image that is not empty and not too large.
unfoldable pub IsSendable : Message → Type 0
IsSendable (resize rows cols) = (rows < 65536) × (cols < 65536)
IsSendable (scroll_by dy) = Unit
IsSendable (image payload code) = (0 < length payload) × (length payload ≤ max_image_bytes)

be_16-put : (n : ℕ) → n < 65536 → be_16 (n / 256 % 256) (n % 256) ≡ n
unfolding be_16
be_16-put n h = omega arith

uint_16-bound : (dy : ℤ) → uint_16 dy < 65536
unfolding uint_16
uint_16-bound (pos n) = omega arith
uint_16-bound (negsuc n) = omega arith

lt_true : (a b : ℕ) → a < b → ltb a b ≡ true
lt_true a b h = ground arith

lt_false : (a b : ℕ) → b ≤ a → ltb a b ≡ false
lt_false a b h = ground arith

within : (n : ℕ) → ltb 32767 n ≡ false → n < 32768
within n e = ground arith

mod_small : (n : ℕ) → n < 32768 → n % 65536 ≡ n
mod_small n h = omega arith

int_16-pos : (n : ℕ) → n < 32768 → int_16 (uint_16 (pos n)) ≡ pos n
unfolding int_16 uint_16
int_16-pos n h = simp (mod_small n h, lt_true n 32768 h)

int_16-negsuc : (n : ℕ) → n < 32768 → int_16 (uint_16 (negsuc n)) ≡ negsuc n
unfolding int_16 uint_16
int_16-negsuc n h = simp (mod_small n h, lt_false (65535 - n) 32768 (omega arith), back)
  where
    back : 65535 - (65535 - n) ≡ n
    back = omega arith

int_16-clamp16 : (dy : ℤ) → int_16 (uint_16 (clamp16 dy)) ≡ clamp16 dy
unfolding clamp16
int_16-clamp16 (pos n) = elim (Bool-cases (ltb 32767 n)) [
  | inl e ↦ simp e (int_16-pos 32767 (omega arith))
  | inr e ↦ simp e (int_16-pos n (within n e))
]
int_16-clamp16 (negsuc n) = elim (Bool-cases (ltb 32767 n)) [
  | inl e ↦ simp e (int_16-negsuc 32767 (omega arith))
  | inr e ↦ simp e (int_16-negsuc n (within n e))
]

int_16-uint_16 :
    (dy : ℤ)
    → int_16 (be_16 (uint_16 (clamp16 dy) / 256 % 256) (uint_16 (clamp16 dy) % 256)) ≡ clamp16 dy
int_16-uint_16 dy = ap int_16 (be_16-put _ (uint_16-bound (clamp16 dy))) ∙ int_16-clamp16 dy

be_32-put :
    (n : ℕ)
    → n < 4294967296
    → be_32 (n / 16777216 % 256) (n / 65536 % 256) (n / 256 % 256) (n % 256) ≡ n
unfolding be_32
be_32-put n h = omega arith

payload_turn-append :
    (payload : Bytes) (code : ℕ) (whole rest : Bytes)
    → 0 < length payload
    → length payload ≤ max_image_bytes
    → payload_turn (length payload) code whole (payload ++ rest) ≡ act (pasted payload code) rest
unfolding payload_turn
payload_turn-append payload code whole rest h k = simp (
  not_empty (length payload) h,
  lt_false max_image_bytes (length payload) k,
  lt_false (length (payload ++ rest)) (length payload) (omega (arith, length-append payload rest)),
  take-append (length payload) payload rest (omega arith),
  take-length payload,
  drop-append (length payload) payload rest (omega arith),
  drop-length payload,
)
  where
    not_empty : (n : ℕ) → 0 < n → (n == 0) ≡ false
    not_empty n p = ground arith

turn-send_resize :
    (rows cols : ℕ) (rest : Bytes)
    → rows < 65536
    → cols < 65536
    → turn (send_resize rows cols ++ rest) ≡ act (resized rows cols) rest
unfolding turn resize_turn send_resize put_16
turn-send_resize rows cols rest h k = simp (be_16-put rows h, be_16-put cols k)

turn-send_scroll :
    (dy : ℤ) (rest : Bytes) → turn (send_scroll dy ++ rest) ≡ act (scrolled (clamp16 dy)) rest
unfolding turn scroll_turn send_scroll put_16
turn-send_scroll dy rest = simp (int_16-uint_16 dy)

turn-send_image :
    (payload : Bytes) (code : ℕ) (rest : Bytes)
    → 0 < length payload
    → length payload ≤ max_image_bytes
    → turn (send_image payload code ++ rest) ≡ act (pasted payload code) rest
unfolding turn image_turn send_image
turn-send_image payload code rest h k =
    ap (λ n. payload_turn n code (send_image payload code ++ rest) (payload ++ rest))
      (be_32-put (length payload) (omega arith))
    ∙ payload_turn-append payload code _ rest h k

turn-sent :
    (m : Message) (rest : Bytes) → IsSendable m → turn (sent m ++ rest) ≡ act (meaning m) rest
unfolding sent meaning IsSendable
turn-sent (resize rows cols) rest (h, k) = turn-send_resize rows cols rest h k
turn-sent (scroll_by dy) rest h = turn-send_scroll dy rest
turn-sent (image payload code) rest (h, k) = turn-send_image payload code rest h k

sent-length : (m : Message) → 0 < length (sent m)
unfolding sent send_resize send_scroll send_image
sent-length (resize rows cols) = omega arith
sent-length (scroll_by dy) = omega arith
sent-length (image payload code) = omega arith

pub data Sendable : List Message → Type 0 where
  nil : Sendable []
  cons : {m : Message} {ms : List Message} → IsSendable m → Sendable ms → Sendable (m ∷ ms)

unfoldable pub sent_all : List Message → Bytes
sent_all [] = []
sent_all (m ∷ ms) = sent m ++ sent_all ms

turns-sent_all :
    (ms : List Message) (fuel : ℕ)
    → Sendable ms
    → length (sent_all ms) < fuel
    → turns fuel (sent_all ms) ≡ (map meaning ms, [])
unfolding turns sent_all
turns-sent_all ms zero s h = ground arith
turns-sent_all [] (suc fuel) s h = unfold turn text_turn cut in refl
turns-sent_all (m ∷ ms) (suc fuel) (cons s ss) h = simp (
  turn-sent m (sent_all ms) s,
  turns-sent_all ms fuel ss (omega (arith, sent-length m, length-append (sent m) (sent_all ms))),
)

-- Whatever sizes, scrolls and images a client sends, one after the other, the server takes them out
-- of the joined bytes in this order and as they were meant, and nothing is left over: sizes of 16
-- bits, scrolls limited to 16 bits, and images from one byte up to the largest allowed.
pub parse_client_input-sent_all :
    (ms : List Message) → Sendable ms → parse_client_input (sent_all ms) ≡ (map meaning ms, [])
unfolding parse_client_input
parse_client_input-sent_all ms s = turns-sent_all ms (suc (length (sent_all ms))) s (omega arith)
