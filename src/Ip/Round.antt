-- ===== src/Ip/Round.antt =====
-- An IPv4 address that is printed and read again: IP.String and net.ParseIP with IP.To4.
use elchi_gslb.Prelude.{
  ℕ, suc, ◌+◌, ◌*◌, ◌-◌, ◌/◌, ◌%◌, ◌<◌, ◌≡◌, refl, ap, sym, ◌∙◌, true, false, ◌&&◌, [], ◌∷◌, ◌++◌,
  some, any, ltb, ◌==◌, nat_eq, list_eq, length, All, Bool-cases, inl, inr, arith, append-nil,
}
use elchi_gslb.Text.{Text}
use elchi_gslb.Ip.{
  Ip, is_digit, v4_fields, parse_v4, mapped, mapped_prefix, byte_text, v4_text, ip_string,
  parse_at_mark, parse_ip,
}

-- A digit is read as a step of the value, unless a zero leads or the value leaves the byte.
read_digit :
    (d : ℕ) (s : Text) (fields : Ip) (digits val k n : ℕ)
    → d < 10
    → ((digits == 1) && (val == 0)) ≡ false
    → digits + 1 ≡ k
    → val * 10 + d ≡ n
    → n < 256
    → v4_fields ((d + b'0') ∷ s) fields digits val ≡ v4_fields s fields k n
unfolding v4_fields
read_digit d s fields digits val k n small led counted valued fits =
    let shown : is_digit (d + b'0') ≡ true = ground arith in
    let value : d + b'0' - b'0' ≡ d = omega arith in
    let below : ltb 255 (val * 10 + d) ≡ false = ground arith in
    rw (shown, value, led, below, counted, valued) refl

-- A printed byte is read as the value of its field.
read_byte :
    (n : ℕ) (s : Text) (fields : Ip)
    → n < 256
    → (k : ℕ) × (v4_fields (byte_text n ++ s) fields 0 0 ≡ v4_fields s fields (suc k) n)
unfolding byte_text
read_byte n s fields small = elim (Bool-cases (ltb n 10)) [
  | inl one ↦
      (0, rw one (read_digit n s fields 0 0 1 n (ground arith) refl refl (omega arith) small))
  | inr more ↦ elim (Bool-cases (ltb n 100)) [
    | inl two ↦ (
      1,
      rw (more, two)
          (read_digit (n / 10) ((n % 10 + b'0') ∷ s) fields 0 0 1 (n / 10) (ground arith) refl refl
              (omega arith) (omega arith)
            ∙ read_digit (n % 10) s fields 1 (n / 10) 2 n (omega arith) (ground arith) refl
                (omega arith) small),
    )
    | inr three ↦ (
      2,
      rw (more, three)
          (read_digit (n / 100) ((n / 10 % 10 + b'0') ∷ (n % 10 + b'0') ∷ s) fields 0 0 1 (n / 100)
              (omega arith) refl refl (omega arith) (omega arith)
            ∙ read_digit (n / 10 % 10) ((n % 10 + b'0') ∷ s) fields 1 (n / 100) 2 (n / 10)
                (omega arith) (ground arith) refl (omega arith) (omega arith)
            ∙ read_digit (n % 10) s fields 2 (n / 10) 3 n (omega arith) (ground arith) refl
                (omega arith) small),
    )
  ]
]

read_point :
    (s : Text) (fields : Ip) (k n : ℕ)
    → length fields < 3
    → v4_fields (b'.' ∷ s) fields (suc k) n ≡ v4_fields s (fields ++ n ∷ []) 0 0
unfolding v4_fields
read_point s fields k n room =
    let fits : ltb (length fields) 3 ≡ true = ground arith in
    let begun : ltb 0 (suc k) ≡ true = ground arith in rw (fits, begun) refl

-- A printed byte and the point after it.
read_field :
    (n : ℕ) (s : Text) (fields : Ip)
    → n < 256
    → length fields < 3
    → v4_fields (byte_text n ++ (b'.' ∷ s)) fields 0 0 ≡ v4_fields s (fields ++ n ∷ []) 0 0
read_field n s fields small room =
    let (k, read) = read_byte n (b'.' ∷ s) fields small in read ∙ read_point s fields k n room

v4_fields-nil :
    (a b c d k : ℕ) → v4_fields [] (a ∷ b ∷ c ∷ []) (suc k) d ≡ some (a ∷ b ∷ c ∷ d ∷ [])
unfolding v4_fields
v4_fields-nil a b c d k = let begun : ltb 0 (suc k) ≡ true = ground arith in rw begun refl

read_last :
    (a b c d : ℕ)
    → d < 256
    → v4_fields (byte_text d) (a ∷ b ∷ c ∷ []) 0 0 ≡ some (a ∷ b ∷ c ∷ d ∷ [])
read_last a b c d small =
    let (k, read) = read_byte d [] (a ∷ b ∷ c ∷ []) small in
    ap (λ (s : Text). v4_fields s (a ∷ b ∷ c ∷ []) 0 0) (sym (append-nil (byte_text d)))
    ∙ read
    ∙ v4_fields-nil a b c d k

AllDigits : Text → Type 0
AllDigits s = All (λ c. is_digit c ≡ true) s

byte_text-AllDigits : (n : ℕ) → n < 256 → AllDigits (byte_text n)
unfolding byte_text AllDigits
byte_text-AllDigits n small = elim (Bool-cases (ltb n 10)) [
  | inl one ↦ rw one (ground arith, tt)
  | inr more ↦ elim (Bool-cases (ltb n 100)) [
    | inl two ↦ rw (more, two) (ground arith, (ground arith, tt))
    | inr three ↦ rw (more, three) (ground arith, (ground arith, (ground arith, tt)))
  ]
]

-- The mark that decides the syntax is the first point.
mark_after_digits :
    (s digits rest : Text)
    → AllDigits digits
    → parse_at_mark s (digits ++ (b'.' ∷ rest)) ≡ mapped (parse_v4 s)
unfolding AllDigits
mark_after_digits s [] rest h = refl
mark_after_digits s (c ∷ digits) rest (h, hs) =
    let no_point : (c == b'.') ≡ false = ground arith in
    let no_colon : (c == b':') ≡ false = ground arith in
    rw (no_point, no_colon) (mark_after_digits s digits rest hs)

no_zone :
    (digits rest : Text)
    → AllDigits digits
    → any (λ c. c == b'%') (digits ++ rest) ≡ any (λ c. c == b'%') rest
unfolding AllDigits
no_zone [] rest h = refl
no_zone (c ∷ digits) rest (h, hs) =
    let plain : (c == b'%') ≡ false = ground arith in rw plain (no_zone digits rest hs)

-- The four bytes of an address of version 4.
pub record IsV4 (a b c d : ℕ) : Type 0 where
  pub first : a < 256
  pub second : b < 256
  pub third : c < 256
  pub fourth : d < 256

module _ (a b c d : ℕ) (h : IsV4 a b c d) where
  parse_v4-v4_text : parse_v4 (v4_text a b c d) ≡ some (a ∷ b ∷ c ∷ d ∷ [])
  unfolding parse_v4 v4_text
  parse_v4-v4_text =
      read_field a (byte_text b ++ (b'.' ∷ (byte_text c ++ (b'.' ∷ byte_text d)))) [] h.first
        (omega arith)
      ∙ read_field b (byte_text c ++ (b'.' ∷ byte_text d)) (a ∷ []) h.second (omega arith)
      ∙ read_field c (byte_text d) (a ∷ b ∷ []) h.third (omega arith)
      ∙ read_last a b c d h.fourth

  unzoned : any (λ c. c == b'%') (v4_text a b c d) ≡ false
  unfolding v4_text
  unzoned =
      no_zone (byte_text a) _ (byte_text-AllDigits a h.first)
      ∙ no_zone (byte_text b) _ (byte_text-AllDigits b h.second)
      ∙ no_zone (byte_text c) _ (byte_text-AllDigits c h.third)
      ∙ ap (λ (s : Text). any (λ c. c == b'%') s) (sym (append-nil (byte_text d)))
      ∙ no_zone (byte_text d) [] (byte_text-AllDigits d h.fourth)

  -- net.ParseIP reads what IP.String prints for an address of version 4, in its mapped form.
  pub parse_ip-ip_string :
      parse_ip (ip_string (a ∷ b ∷ c ∷ d ∷ [])) ≡ some (mapped_prefix ++ (a ∷ b ∷ c ∷ d ∷ []))
  unfolding parse_ip ip_string
  parse_ip-ip_string =
      rw
        (
          unzoned,
          mark_after_digits (v4_text a b c d) (byte_text a) _ (byte_text-AllDigits a h.first),
        )
        (ap mapped parse_v4-v4_text)
