-- ===== src/Post/Tests.antt =====
-- Requests, what is posted for one, and what comes of the answers, at concrete values.
use Prim.Native.String.{String}
use mathlib.Core.List.{Memᴰ}
use vncc.Base.{
  ℕ, ◌+◌, ◌*◌, ◌/◌, ◌%◌, ◌≤◌, ◌≡◌, ◌==◌, if◌then◌else◌, refl, Bool, true, false, List, [], ◌∷◌, All,
  Option, none, some, length, arith,
}
use vncc.Instructions.{ℤ, pos, negsuc}
use vncc.Instructions.Docs.{Doc, nothing, number, member, docs}
use vncc.Hex.{get_string_sha256}
use vncc.Post.{Body}
use vncc.Post
use vncc.Post.Account.{op_group}
use vncc.Post.Other.{generate_qr}
use vncc.Post.Content.{mainland, complete, build_post_content}
use vncc.Post.Form.{IsPlain}
use vncc.Post.Sign.{accept, build_post_content-accept}
use vncc.Post.Calls.{
  Call, account_call, other_call, lookup, user_in, request, user_in-request, generate_qr-device,
}
use vncc.Post.Http.{Transfer, https_post_content}
use vncc.Post.Answer.{is_succ, briage_https_post_content, briage_download_file}
use vncc.Post.Outcome.{briage_https_post_content-unreadable, briage_https_post_content-code}
use vncc.Post.Download.{briage_download_file-fails}
use vncc.Post.Progress.{
  Progress, ProgressCall, IsSpaced, IsRecent, update_times, stamps, update_times-IsSpaced,
}

abbrev digit : ℕ → List ℕ
digit n = (48 + n % 10) ∷ []

abbrev short : List ℕ → List ℕ
short text = 175 ∷ length text % 256 ∷ []

digit-IsPlain : (n : ℕ) → All IsPlain (digit n)
digit-IsPlain n = ((ground arith, ground arith), tt)

abbrev print : ℤ → String
print z = "7"

abbrev wide : List ℕ → String
wide name = "phone"

-- The third operation on groups, which renames one.
abbrev rename : Call ℕ ℕ
rename = account_call (op_group (pos 17) "token" (pos 3) (pos 4) "mine")

user_in-request_run :
    user_in (complete mainland (request false print "sn" wide rename).body) ≡ some (pos 17, "token")
user_in-request_run = user_in-request false print "sn" wide mainland rename

generate_qr_run :
    lookup "DeviceCode" (
      complete mainland
        (request {Real = ℕ} {J = ℕ} false print "sn" wide (other_call generate_qr)).body)
    ≡ some (vncc.Post.letters "WIN")
generate_qr_run = generate_qr-device false print "sn" wide mainland

abbrev dump : Body ℕ ℕ → List ℕ
dump body = 123 ∷ (38 ∷ 125 ∷ [])

build_post_content-accept_example :
    accept (get_string_sha256 short) mainland (
      build_post_content
        (get_string_sha256 short)
        digit
        dump
        mainland
        5
        900
        (pos 100)
        (51 ∷ 52 ∷ [])
        [])
    ≡ some (123 ∷ 38 ∷ 125 ∷ [])
build_post_content-accept_example =
    build_post_content-accept short digit (λ text. (omega arith, (omega arith, tt))) digit-IsPlain
      dump mainland 5 900 (pos 100) (51 ∷ 52 ∷ []) [] (omega arith) refl
      (((refl, refl), ((refl, refl), tt))) (omega arith, (omega arith, (omega arith, tt)))

-- The only text that the library of the examples parses: an answer with a code, and data that is no
-- text.
abbrev parse : List ℕ → Option Doc
parse [] = none
parse (c ∷ rest) =
    if c == 55
    then some (member "Code" (number (pos 7)) (member "Data" (number (pos 1)) nothing))
    else none

abbrev is_member : Doc → Bool
is_member (member n v rest) = true
is_member _ = false

abbrev seven : Transfer
seven = record {
  url_ok = true;
  handle_ok = true;
  status = 200;
  pieces = (55 ∷ 55 ∷ []) ∷ [];
  result = 0;
}

abbrev refused : Transfer
refused = record seven { url_ok = false }

briage_https_post_content-unreadable_run :
    let (stamp, x) = briage_https_post_content docs (pos 0) is_member parse refused in
    (stamp ≡ pos 0)
    × (x.ret_code ≡ negsuc 0)
    × (x.msg ≡ "")
    × (x.data_text ≡ "")
    × (is_succ x ≡ false)
unfolding https_post_content
briage_https_post_content-unreadable_run =
    briage_https_post_content-unreadable docs (pos 0) is_member parse refused refl

briage_https_post_content-code_example :
    (briage_https_post_content docs (pos 0) is_member parse seven).1.ret_code ≡ pos 7
unfolding https_post_content
briage_https_post_content-code_example =
    briage_https_post_content-code docs (pos 0) is_member parse seven (number (pos 7)) (pos 7) refl
      refl refl refl

briage_download_file-fails_run : (briage_download_file seven (97 ∷ [])).ret ≡ false
briage_download_file-fails_run =
    briage_download_file-fails seven (97 ∷ []) (55 ∷ 55 ∷ []) (omega arith) (omega arith)
      (Memᴰ.head refl)

abbrev call : ℕ → ℕ → ℕ → ProgressCall
call now total here = record { now = now; dl_total = total; dl_now = here }

abbrev hundredths : ℕ → ℕ → ℕ
hundredths here total = here * 100 / total

abbrev calls : List ProgressCall
calls = call 500 0 0 ∷ call 2000 80 4 ∷ call 2500 80 20 ∷ call 3001 80 40 ∷ []

abbrev begun : Progress ℕ
begun = record { ts = 0; f_persent = 0 }

two_updates : update_times hundredths calls begun ≡ 2000 ∷ 3001 ∷ []
unfolding update_times vncc.Post.Progress.my_progress_callback
two_updates = refl

update_times-IsSpaced_example :
    IsSpaced 0 (update_times hundredths calls begun)
    × (200 + 1001 * length (update_times hundredths calls begun) ≤ 4002)
    × All IsRecent (stamps hundredths calls begun)
update_times-IsSpaced_example = update_times-IsSpaced hundredths 200 calls begun (omega arith) (
  omega arith,
  omega arith,
  (omega arith, omega arith, (omega arith, omega arith, (omega arith, omega arith, tt))),
)
