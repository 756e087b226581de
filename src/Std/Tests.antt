-- ===== src/Std/Tests.antt =====
-- The models of the standard library at inputs whose results Go's documentation or a run gives.
use mitrity_go.Base.{same, ◌≡◌, refl, [], ◌∷◌, ◌++◌, true, false, none, some, codes, Bytes}
use mitrity_go.Base.Int.{pos, negsuc}
use mitrity_go.Std.Utf8.{runes, utf16_units}
use mitrity_go.Std.Strings.{hex_encode, trim_space, quote, format_ℤ}
use mitrity_go.Std.Float.{finite}
use mitrity_go.Std.Value.{nil, bool, str, int, float, object, field, end, list, item, stop}
use mitrity_go.Std.Duration.{parse_duration}
use mitrity_go.Std.Sha256.{sha256}
use mitrity_go.Std.Ip.{parse_ip, loopback_text}
use mitrity_go.Base.{Option}
use mitrity_go.Std.Json.{unmarshal, valid, encode_value}

utf8_test :
    (runes (0xE2 ∷ 0x82 ∷ 0xAC ∷ 0xC3 ∷ b'a' ∷ []) ≡ 0x20AC ∷ 0xFFFD ∷ b'a' ∷ [])
    × (utf16_units (0x1F600 ∷ []) ≡ 0xD83D ∷ 0xDE00 ∷ [])
unfolding runes utf16_units
utf8_test = (refl, refl)

trim_test : trim_space (codes "  a b\n" ++ 0xE2 ∷ 0x80 ∷ 0xA8 ∷ []) ≡ codes "a b"
unfolding trim_space
trim_test = refl

quote_test : (quote (codes "a\"b\n") ≡ codes "\"a\\\"b\\n\"") × (format_ℤ (negsuc 41) ≡ codes "-42")
unfolding quote format_ℤ
quote_test = (refl, refl)

abbrev sample : Bytes
sample = codes " {\"b\": [1, -2.5e1, true], \"a\": \"x\\u00e9\\ud83d\\ude00\\n\", \"a\": null} "

decode_test :
    unmarshal sample
    ≡ some (
        object (
          field
            (codes "b")
            (list (
              item
                (float (finite false 4503599627370496 1022))
                (item (float (finite true 7036874417766400 1026)) (item (bool true) stop))))
            (field (codes "a") nil end)))
unfolding unmarshal same
decode_test = refl

invalid_test :
    (valid (codes "{\"a\":1,}") ≡ false)
    × (valid (codes "01") ≡ false)
    × (valid (codes "[1,2] x") ≡ false)
    × (valid (codes "1e400") ≡ true)
    × (unmarshal (codes "1e400") ≡ none)
unfolding valid unmarshal
invalid_test = (refl, refl, refl, refl, refl)

encode_test :
    encode_value (
      object (
        field
          (codes "b")
          (str (codes "a\"\n"))
          (field (codes "a") (list (item (int (pos 7)) stop)) end)))
    ≡ some (codes "{\"a\":[7],\"b\":\"a\\\"\\n\"}")
unfolding encode_value
encode_test = refl

-- 0.1, 1e21 and 123456.789
float_test : (encode_value (float (finite false 7205759403792794 1018)) ≡ some (codes "0.1"))
unfolding encode_value
float_test = refl

duration_test :
    (parse_duration (codes "1h30m") ≡ some (pos 5400000000000))
    × (parse_duration (codes "-1.5ms") ≡ some (negsuc 1499999))
    × (parse_duration (codes "9") ≡ none)
    × (parse_duration (codes ".s") ≡ none)
unfolding parse_duration same
duration_test = (refl, refl, refl, refl)

abbrev loopback_of : Bytes → Option Bytes
loopback_of s = elim (parse_ip s) [ none ↦ none | some ip ↦ loopback_text ip ]

ip_test :
    (loopback_of (codes "127.0.0.1") ≡ some (codes "127.0.0.1"))
    × (loopback_of (codes "::1") ≡ some (codes "::1"))
    × (loopback_of (codes "::ffff:127.9.0.1") ≡ some (codes "127.9.0.1"))
    × (loopback_of (codes "0:0::0:1") ≡ some (codes "::1"))
    × (loopback_of (codes "10.0.0.1") ≡ none)
    × (loopback_of (codes "127.0.0.01") ≡ none)
    × (loopback_of (codes "1::2::3") ≡ none)
unfolding parse_ip loopback_text
ip_test = (refl, refl, refl, refl, refl, refl, refl)

sha256_test :
    hex_encode (sha256 (codes "abc"))
    ≡ codes "ba7816bf8f01cfea414140de5dae2223b00361a396177a9cb410ff61f20015ad"
unfolding sha256 hex_encode
sha256_test = refl
