-- ===== src/Recv/Utf8.antt =====
-- `str::from_utf8` and `char::is_control`, which `parse_init` (lib/recv.rs) applies to a name.
use udpcp.Base.{
  ℕ, zero, suc, ◌+◌, ◌-◌, ◌*◌, List, [], ◌∷◌, ◌++◌, Option, none, some, Bool, false, ◌&&◌, ◌||◌,
  ltb, leb, ◌==◌, if◌then◌else◌,
}

-- Inside a sequence: the continuation bytes still to come, the range of the next one, and the bits
-- read so far.
record Decoder : Type 0 where
  need : ℕ
  lo : ℕ
  hi : ℕ
  acc : ℕ

between : Decoder
between = record { need = 0; lo = 0; hi = 0; acc = 0 }

expect : ℕ → ℕ → ℕ → ℕ → Option (Decoder × List ℕ)
expect need lo hi acc = some (record { need = need; lo = lo; hi = hi; acc = acc }, [])

-- The first byte of a sequence: no overlong forms, no surrogates, nothing above U+10FFFF.
first_byte : ℕ → Option (Decoder × List ℕ)
unfolding between expect
first_byte b =
    if ltb b 0x80
    then some (between, b ∷ [])
    else (if ltb b 0xc2
        then none
        else (if ltb b 0xe0
            then expect 1 0x80 0xbf (b - 0xc0)
            else (if b == 0xe0
                then expect 2 0xa0 0xbf 0
                else (if b == 0xed
                    then expect 2 0x80 0x9f 0xd
                    else (if ltb b 0xf0
                        then expect 2 0x80 0xbf (b - 0xe0)
                        else (if b == 0xf0
                            then expect 3 0x90 0xbf 0
                            else (if ltb b 0xf4
                                then expect 3 0x80 0xbf (b - 0xf0)
                                else (if b == 0xf4 then expect 3 0x80 0x8f 4 else none))))))))

next_byte : Decoder → ℕ → ℕ → Option (Decoder × List ℕ)
unfolding first_byte
next_byte d zero b = first_byte b
next_byte d (suc left) b =
    let acc = d.acc * 64 + (b - 0x80) in
    if ltb b d.lo || ltb d.hi b
    then none
    else (if left == 0 then some (between, acc ∷ []) else expect left 0x80 0xbf acc)

prepend : List ℕ → Option (List ℕ) → Option (List ℕ)
prepend cs none = none
prepend cs (some ds) = some (cs ++ ds)

utf8_from : Decoder → List ℕ → Option (List ℕ)
unfolding next_byte prepend
utf8_from d [] = if d.need == 0 then some [] else none
utf8_from d (b ∷ bs) = elim (next_byte d d.need b) [
  | none ↦ none
  | some (d', cs) ↦ prepend cs (utf8_from d' bs)
]

-- The code points, or none if the bytes are not UTF-8.
unfoldable pub from_utf8 : List ℕ → Option (List ℕ)
unfolding utf8_from
from_utf8 bs = utf8_from between bs

unfoldable pub is_control : ℕ → Bool
is_control c = ltb c 0x20 || (leb 0x7f c && ltb c 0xa0)

unfoldable pub any_control : List ℕ → Bool
unfolding is_control
any_control [] = false
any_control (c ∷ cs) = is_control c || any_control cs
