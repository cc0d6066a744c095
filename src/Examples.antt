-- ===== src/Examples.antt =====
-- Concrete libraries to run the definitions on: texts for JSON values, and a reader and a writer
-- that know the frames `ping` and `pong` (the latter padded, so that it takes several chunks); an
-- event and a close are written as an empty object.
pub mod Names
pub mod Records
pub mod Chunks
pub mod Sessions
pub mod Ports
pub mod Wires
pub mod Commands
pub mod Contracts
pub mod Openings
use mango_protocol.Common.{
  ℕ, zero, suc, ◌+◌, ◌≤◌, ◌≡◌, refl, Text, Bytes, text_eq, List, [], ◌∷◌, ◌++◌, Bool, true, Option,
  none, some, if◌then◌else◌, Result, ok, err, All, all, leb, subst, arith,
}
use mango_protocol.Libs.{Libs}
use mango_protocol.Wire.Error.{lit}
use mango_protocol.Wire.Frame.{Frame}
use mango_protocol.Codec.Serde.{Serde, ReadError, bad_data, IsCompact, ReadsBack}

instance abbrev pub toy_libs : Libs
toy_libs = record {
  Value = Text;
  Map = List (Text × Text);
  empty_map = [];
  insert_member = λ key value map. (key, value) ∷ map;
  text_value = λ t. t;
  number_value = λ n. n ∷ [];
  is_object = λ v. true;
  display = λ n. (48 + n) ∷ [];
  debug = λ t. t;
  from_utf8_lossy = λ bytes. bytes;
}

abbrev pub replicate : ℕ → ℕ → Bytes
replicate zero b = []
replicate (suc n) b = b ∷ replicate n b

unfoldable pub ping_bytes : Bytes
unfolding lit
ping_bytes = lit "{\"type\":\"ping\"}"

unfoldable pub pong_bytes : Bytes
unfolding lit
pong_bytes = 123 ∷ (replicate 3000 32 ++ 125 ∷ [])

abbrev pub toy_to_vec : Frame toy_libs → Result Bytes Text
toy_to_vec Frame.ping = ok ping_bytes
toy_to_vec Frame.pong = ok pong_bytes
toy_to_vec (Frame.evt _) = ok (123 ∷ 125 ∷ [])
toy_to_vec (Frame.close _) = ok (123 ∷ 125 ∷ [])
toy_to_vec _ = err []

abbrev pub toy_from_slice : Bytes → Result (Frame toy_libs) ReadError
toy_from_slice bytes =
    if text_eq bytes ping_bytes
    then ok Frame.ping
    else if text_eq bytes pong_bytes
    then ok Frame.pong
    else err (record { category = bad_data; text = [] })

instance abbrev pub toy_serde : Serde toy_libs
toy_serde = record {
  to_vec = toy_to_vec;
  from_slice = toy_from_slice;
  value_of_slice = λ bytes. none;
  get_member = λ name value. none;
  as_string = λ value. none;
}

printable_of : (bytes : Bytes) → all (leb 32) bytes ≡ true → All (λ b. 32 ≤ b) bytes
printable_of [] h = tt
printable_of (b ∷ bytes) h = (ground arith, printable_of bytes (ground arith))

ok-injective : {A B : Type 0} {x y : A} → Path (Result A B) (ok x) (ok y) → x ≡ y
ok-injective h = cc

-- What the writer wrote begins with a brace and is printable.
Compact : Bytes → Type 0
Compact bytes = All (λ b. 32 ≤ b) bytes × ((rest : Bytes) × (bytes ≡ b'{' ∷ rest))

toy_Compact : (f : Frame toy_libs) (bytes : Bytes) → toy_to_vec f ≡ ok bytes → Compact bytes
unfolding Compact ping_bytes pong_bytes
toy_Compact Frame.ping bytes h =
    subst Compact (ok-injective h) (printable_of ping_bytes refl, (_, refl))
toy_Compact Frame.pong bytes h =
    subst Compact (ok-injective h) (printable_of pong_bytes refl, (_, refl))
toy_Compact (Frame.hello _) bytes h = absurd cc
toy_Compact (Frame.req _) bytes h = absurd cc
toy_Compact (Frame.res _) bytes h = absurd cc
toy_Compact (Frame.err _) bytes h = absurd cc
toy_Compact (Frame.evt _) bytes h =
    subst Compact (ok-injective h) (printable_of (123 ∷ 125 ∷ []) refl, (_, refl))
toy_Compact (Frame.cancel _) bytes h = absurd cc
toy_Compact (Frame.close _) bytes h =
    subst Compact (ok-injective h) (printable_of (123 ∷ 125 ∷ []) refl, (_, refl))

pub toy_IsCompact : IsCompact toy_serde
unfolding Compact
toy_IsCompact = record {
  printable = λ f bytes h. (toy_Compact f bytes h).0;
  braced = λ f bytes h. (toy_Compact f bytes h).1;
}

pub toy_ReadsBack-ping : ReadsBack toy_serde Frame.ping
unfolding text_eq ping_bytes pong_bytes
toy_ReadsBack-ping bytes h = subst (λ b. toy_from_slice b ≡ ok Frame.ping) (ok-injective h) refl

pub toy_ReadsBack-pong : ReadsBack toy_serde Frame.pong
unfolding text_eq ping_bytes pong_bytes
toy_ReadsBack-pong bytes h = subst (λ b. toy_from_slice b ≡ ok Frame.pong) (ok-injective h) refl
