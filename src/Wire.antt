-- ===== src/Wire.antt =====
-- The frames between a client and the proxy: internal/client/client.go and clipboard.go send them,
-- internal/ptyproxy/server.go (`parseClientInput`) takes them out of what it has read. The sizes of a
-- terminal are numbers; an int is one of 64 bits, so that the length of an image is never negative.
pub mod RoundTrip
pub mod Fuel
use claude_master_go.Base.{
  ℕ, zero, suc, ◌+◌, ◌-◌, ◌*◌, ◌/◌, ◌%◌, Bool, true, false, ◌&&◌, ◌||◌, List, [], ◌∷◌, ◌++◌, ◌==◌,
  ltb, leb, if◌then◌else◌, Bytes, length, take, drop, has_prefix, ℤ, pos, negsuc,
}

abbrev pub resize_magic : Bytes
resize_magic = 255 ∷ 255 ∷ []

abbrev pub scroll_magic : Bytes
scroll_magic = 255 ∷ 254 ∷ []

abbrev pub image_magic : Bytes
image_magic = 255 ∷ 253 ∷ []

-- 8 << 20.
abbrev pub max_image_bytes : ℕ
max_image_bytes = 8388608

-- What the server does with a frame, or with what stands between frames.
pub data Action : Type 0 where
  resized : (rows cols : ℕ) → Action
  scrolled : ℤ → Action
  pasted : Bytes → (code : ℕ) → Action
  forwarded : Bytes → Action

-- One turn of the loop: what is done, what is left in `c.in`, and whether the loop goes on.
pub record Turn : Type 0 where
  pub did : List Action
  pub rest : Bytes
  pub again : Bool

abbrev pub wait : Bytes → Turn
wait b = record { did = []; rest = b; again = false }

abbrev pub act : Action → Bytes → Turn
act a rest = record { did = a ∷ []; rest = rest; again = true }

-- `binary.BigEndian.Uint16`, and `Uint32`.
unfoldable pub be_16 : ℕ → ℕ → ℕ
be_16 a b = a * 256 + b

unfoldable pub be_32 : ℕ → ℕ → ℕ → ℕ → ℕ
be_32 a b c d = a * 16777216 + b * 65536 + c * 256 + d

-- `int16` of a uint16.
unfoldable pub int_16 : ℕ → ℤ
int_16 n = if ltb n 32768 then pos n else negsuc (65535 - n)

unfoldable pub resize_turn : Bytes → Turn
resize_turn (_ ∷ _ ∷ a ∷ b ∷ c ∷ d ∷ rest) = act (resized (be_16 a b) (be_16 c d)) rest
resize_turn b = wait b

unfoldable pub scroll_turn : Bytes → Turn
scroll_turn (_ ∷ _ ∷ a ∷ b ∷ rest) = act (scrolled (int_16 (be_16 a b))) rest
scroll_turn b = wait b

-- The payload of an image of `n` bytes, behind the header; `whole` is the buffer with the header.
unfoldable pub payload_turn : ℕ → ℕ → Bytes → Bytes → Turn
payload_turn n code whole rest =
    if n == 0 || ltb max_image_bytes n
    then record { did = []; rest = rest; again = true }
    else if ltb (length rest) n
    then wait whole
    else act (pasted (take n rest) code) (drop n rest)

unfoldable pub image_turn : Bytes → Turn
image_turn (x ∷ y ∷ a ∷ b ∷ c ∷ d ∷ code ∷ rest) =
    payload_turn (be_32 a b c d) code (x ∷ y ∷ a ∷ b ∷ c ∷ d ∷ code ∷ rest) rest
image_turn b = wait b

unfoldable pub is_magic : Bytes → Bool
is_magic (x ∷ y ∷ _) = x == 255 && (y == 255 || y == 254 || y == 253)
is_magic _ = false

-- The index of the first magic, or the length.
unfoldable pub cut : Bytes → ℕ
cut [] = 0
cut (x ∷ xs) = let c = cut xs in if is_magic (x ∷ xs) then 0 else suc c

unfoldable pub text_turn : Bytes → Turn
text_turn b =
    let c = cut b in
    if c == 0 then wait b else record {
      did = forwarded (take c b) ∷ [];
      rest = drop c b;
      again = leb 2 (length (drop c b));
    }

unfoldable pub turn : Bytes → Turn
turn b =
    if has_prefix b resize_magic
    then resize_turn b
    else if has_prefix b scroll_magic
    then scroll_turn b
    else if has_prefix b image_magic
    then image_turn b
    else text_turn b

-- The loop, and what it leaves in `c.in`. The source's loop has no bound: one turn more than there are
-- bytes is fuel that does not run out (Fuel).
unfoldable pub turns : ℕ → Bytes → List Action × Bytes
turns zero b = ([], b)
turns (suc fuel) b =
    let t = turn b in
    let r = turns fuel t.rest in if t.again then (t.did ++ r.0, r.1) else (t.did, t.rest)

unfoldable pub parse_client_input : Bytes → List Action × Bytes
parse_client_input b = turns (suc (length b)) b

unfoldable pub clamp16 : ℤ → ℤ
clamp16 (pos n) = if ltb 32767 n then pos 32767 else pos n
clamp16 (negsuc n) = if ltb 32767 n then negsuc 32767 else negsuc n

-- `uint16(int16(d))`.
unfoldable pub uint_16 : ℤ → ℕ
uint_16 (pos n) = n % 65536
uint_16 (negsuc n) = 65535 - n % 65536

unfoldable pub put_16 : ℕ → Bytes → Bytes
put_16 n rest = (n / 256) % 256 ∷ n % 256 ∷ rest

unfoldable pub send_scroll : ℤ → Bytes
send_scroll dy = scroll_magic ++ put_16 (uint_16 (clamp16 dy)) []

unfoldable pub send_resize : ℕ → ℕ → Bytes
send_resize rows cols = resize_magic ++ put_16 rows (put_16 cols [])

unfoldable pub send_image : Bytes → ℕ → Bytes
send_image payload code =
    let n = length payload in
    image_magic ++ n / 16777216 % 256 ∷ n / 65536 % 256 ∷ n / 256 % 256 ∷ n % 256 ∷ code ∷ payload
