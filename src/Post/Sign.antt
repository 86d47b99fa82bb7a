-- ===== src/Post/Sign.antt =====
-- The server's side of `BuildPostContent`: reading the form, and checking the signature with the key
-- that the number `r` names.
use mathlib.Core.Bool.{and-eq-true_iff}
use vncc.Base.{
  ascii, same_bytes, same_bytes_self, IsByte, ℕ, ◌+◌, ◌-◌, ◌<◌, ◌==◌, ◌≡◌, refl, ap, ap₂, ◌∙◌, Bool,
  true, ◌&&◌, not, inl, inr, if◌then◌else◌, if_true, List, [], ◌∷◌, ◌++◌, All, Option, none, some,
  arith,
}
use vncc.Hex.{c_text, get_string_sha256}
use vncc.Hex.Decode.{IsHex, hex_decode-char_str2_hex_str}
use vncc.Instructions.{ℤ}
use vncc.Post.{Body}
use vncc.Post.Content.{
  Edition, ecalc, mainland, kaopu, multidesk, release, key_of, complete, send_stamp, Form,
  post_form, build_post_content,
}
use vncc.Post.Form.{IsPlain, PlainField, read_form, read_whole}
use vncc.Web.{kept}
use vncc.Web.Decode.{IsSafe, url_decode, url_decode-url_encode}

-- The value of the first field of the name.
abbrev pub field_of : List ℕ → Form → List ℕ
field_of name [] = []
field_of name ((n, v) ∷ rest) =
    let later = field_of name rest in if same_bytes n name then v else later

abbrev pub key_by : Edition → List ℕ → List ℕ
key_by e (c ∷ []) = key_of e (c - 48)
key_by e _ = []

-- The text of the data, if the signature is that of the data and the other fields.
abbrev pub accept_form : (List ℕ → List ℕ) → Edition → Form → Option (List ℕ)
accept_form sha256 e f =
    let r = field_of (ascii "r") f in
    let data_text = url_decode (field_of (ascii "data") f) in
    let signed =
      data_text
      ++ (r
          ++ (field_of (ascii "RequestID") f ++ (field_of (ascii "TimeStamp") f ++ key_by e r))) in
    if same_bytes (field_of (ascii "sign") f) (sha256 signed) then some data_text else none

unfoldable pub accept : (List ℕ → List ℕ) → Edition → List ℕ → Option (List ℕ)
accept sha256 e text = accept_form sha256 e (read_form text)

abbrev all_plain : List ℕ → Bool
all_plain [] = true
all_plain (c ∷ cs) = (not (c == 38) && not (c == 61)) && all_plain cs

IsPlain-of : (cs : List ℕ) → all_plain cs ≡ true → All IsPlain cs
IsPlain-of [] h = tt
IsPlain-of (c ∷ cs) h =
    let (here, later) = (and-eq-true_iff (not (c == 38) && not (c == 61)) (all_plain cs)).0 h in
    ((ground (arith, here), ground (arith, here)), IsPlain-of cs later)

IsSafe-IsPlain : (cs : List ℕ) → All IsSafe cs → All IsPlain cs
unfolding kept
IsSafe-IsPlain [] h = tt
IsSafe-IsPlain (c ∷ cs) h = (
  elim h.0 [
    | inl k ↦ (ground (arith, k), ground (arith, k))
    | inr p ↦ (ground (arith, p), ground (arith, p))
  ],
  IsSafe-IsPlain cs h.1,
)

release-IsPlain : (e : Edition) → All IsPlain (ascii (release e).channel_name)
release-IsPlain ecalc = IsPlain-of (ascii "pc_main") refl
release-IsPlain mainland = IsPlain-of (ascii "pc_main") refl
release-IsPlain kaopu = IsPlain-of (ascii "pc_main") refl
release-IsPlain multidesk = IsPlain-of (ascii "win_main") refl

IsHex-IsPlain : (cs : List ℕ) → All IsHex cs → All IsPlain cs
IsHex-IsPlain [] h = tt
IsHex-IsPlain (c ∷ cs) h = (
  elim h.0 [
    | inl k ↦ (ground (arith, k), ground (arith, k))
    | inr k ↦ (ground (arith, k), ground (arith, k))
  ],
  IsHex-IsPlain cs h.1,
)

get_string_sha256-IsPlain :
    (sha256 : List ℕ → List ℕ) (text : List ℕ)
    → All IsByte (sha256 (c_text text))
    → All IsPlain (get_string_sha256 sha256 text)
unfolding get_string_sha256
get_string_sha256-IsPlain sha256 text bytes =
    IsHex-IsPlain _ (hex_decode-char_str2_hex_str (sha256 (c_text text)) bytes).1

module _ (sha256 : List ℕ → List ℕ) (show : ℕ → List ℕ)
    (digest_bytes : (text : List ℕ) → All IsByte (sha256 text))
    (show_plain : (n : ℕ) → All IsPlain (show n)) where
  post_form-PlainField :
      (e : Edition) (nr now : ℕ) (stamp : ℤ) (reqid data_text : List ℕ)
      → All IsByte data_text
      → All IsPlain reqid
      → All PlainField (post_form (get_string_sha256 sha256) show e nr now stamp reqid data_text)
  unfolding post_form
  post_form-PlainField e nr now stamp reqid data_text bytes id = (
    (IsPlain-of (ascii "r") refl, show_plain nr),
    (
      (IsPlain-of (ascii "sign") refl, get_string_sha256-IsPlain sha256 _ (digest_bytes _)),
      (
        (
          IsPlain-of (ascii "data") refl,
          IsSafe-IsPlain _ (url_decode-url_encode data_text bytes).1,
        ),
        (
          (IsPlain-of (ascii "ChannelName") refl, release-IsPlain e),
          (
            (IsPlain-of (ascii "DeviceCode") refl, IsPlain-of (ascii "LINUX") refl),
            (
              (IsPlain-of (ascii "DeviceType") refl, show_plain 3),
              (
                (IsPlain-of (ascii "IMEI") refl, IsPlain-of (ascii "LINUX_IMEI") refl),
                (
                  (IsPlain-of (ascii "PackageType") refl, IsPlain-of (ascii "main") refl),
                  (
                    (IsPlain-of (ascii "TimeStamp") refl, show_plain (send_stamp now stamp)),
                    (
                      (IsPlain-of (ascii "Version") refl, show_plain 10001),
                      (
                        (IsPlain-of (ascii "VersionName") refl, IsPlain-of (ascii "1.0.0.01") refl),
                        ((IsPlain-of (ascii "RequestID") refl, id), tt),
                      ),
                    ),
                  ),
                ),
              ),
            ),
          ),
        ),
      ),
    ),
  )

  module _ {Real J : Type 0} (dump : Body Real J → List ℕ) where
    -- What `BuildPostContent`, with `GetStringSha256` as the digest, makes of a request is accepted by a server that reads the form and checks
    -- the signature with the key that `r` names, and gives it the object with the environment as
    -- `dump` wrote it: if the digest gives bytes, the numbers and the unique id hold neither '&' nor '=', the
    -- number `nr` is below 8 and printed as its digit, and `dump` gives bytes.
    pub build_post_content-accept :
        (e : Edition) (nr now : ℕ) (stamp : ℤ) (reqid : List ℕ) (body : Body Real J)
        → nr < 8
        → show nr ≡ (48 + nr) ∷ []
        → All IsPlain reqid
        → All IsByte (dump (complete e body))
        → accept
            (get_string_sha256 sha256)
            e
            (build_post_content (get_string_sha256 sha256) show dump e nr now stamp reqid body)
          ≡ some (dump (complete e body))
    unfolding build_post_content accept post_form
    build_post_content-accept e nr now stamp reqid body small digit id bytes =
        ap (accept_form (get_string_sha256 sha256) e) (
          read_whole (post_form (get_string_sha256 sha256) show e nr now stamp reqid text)
            (omega arith) plain)
        ∙ ap₂ outcome (url_decode-url_encode text bytes).0
            (ap (key_by e) digit ∙ ap (key_of e) (ground arith))
        ∙ if_true _ _ _ (same_bytes_self sign)
      where
        text : List ℕ
        text = dump (complete e body)

        plain : All PlainField (post_form (get_string_sha256 sha256) show e nr now stamp reqid text)
        plain = post_form-PlainField e nr now stamp reqid text bytes id

        sign : List ℕ
        sign =
            get_string_sha256 sha256
              (text ++ (show nr ++ (reqid ++ (show (send_stamp now stamp) ++ key_of e nr))))

        outcome : List ℕ → List ℕ → Option (List ℕ)
        outcome decoded key =
            if same_bytes sign (
              get_string_sha256 sha256
                (decoded ++ (show nr ++ (reqid ++ (show (send_stamp now stamp) ++ key)))))
            then some decoded
            else none
