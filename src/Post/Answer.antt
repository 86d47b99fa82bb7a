-- ===== src/Post/Answer.antt =====
-- `briage_HttpsPostContent` and `briage_DownloadFile` of eWebRequest.cpp, and `QuickGetJsonData` of
-- base/jsonext.hpp: how the answer to a request is taken. The exchange runs on the executor's thread;
-- the signal that hands it to the caller is its last step, and is sent whenever there is a callback.
use Prim.Native.String.{String}
use vncc.Base.{
  ℕ, Bool, false, ◌&&◌, ◌==◌, leb, if◌then◌else◌, List, [], ◌∷◌, Option, none, some, length,
}
use vncc.Sysinit.{◌=ℤ=◌}
use vncc.Instructions.{ℤ, pos, Struct, Vals, JsonLib, from_json, defaults}
use vncc.Instructions.Tables.Account.{web_response_pack_base}
use vncc.Post.Http.{Transfer, Download, Posted, https_post_content}

-- The members of an exchange that the answer sets.
pub record Exchange : Type 0 where
  pub http_code : ℤ
  pub ok : Bool  -- `_bret`
  pub response : List ℕ
  pub ret_code : ℤ
  pub msg : String
  pub data_text : String

abbrev pub is_succ : Exchange → Bool
is_succ x = x.ok && (x.ret_code =ℤ= pos 0)

-- The bytes up to the first zero.
abbrev pub c_text : List ℕ → List ℕ
c_text [] = []
c_text (c ∷ rest) = let later = c_text rest in if c == 0 then [] else c ∷ later

-- "null" stands in for an answer of no bytes.
abbrev pub answer_text : List ℕ → List ℕ
answer_text response = if leb (length response) 1 then 110 ∷ 117 ∷ 108 ∷ 108 ∷ 0 ∷ [] else response

-- What the text is read as: `null` if it cannot be parsed.
abbrev pub parsed : {Json Real : Type 0} → JsonLib Json Real → Option Json → Json
parsed lib none = lib.null
parsed lib (some j) = j

-- The new `time_stamp` and the exchange, from what the transfer and the answer gave.
unfoldable pub taken :
    (Real : Type 0) → Posted → Vals Real web_response_pack_base.members → ℤ × Exchange
unfolding Vals
taken Real p (code, (msg, (request_id, (stamp, (r, (sign, (data_text, end))))))) = (
  stamp,
  record {
    http_code = p.ret_code;
    ok = p.ret;
    response = [];
    ret_code = code;
    msg = msg;
    data_text = data_text;
  },
)

abbrev pub fresh_download : Download
fresh_download = record { http_status = 0; fp = none; write_size = 0 }

-- A download: the answer is not read.
unfoldable pub briage_download_file : Transfer → List ℕ → Posted
briage_download_file t path = https_post_content t (some path) (some fresh_download) []

module _ {Json Real : Type 0} (lib : JsonLib Json Real) (unset : ℤ) (is_object : Json → Bool) where
  -- `QuickGetJsonData` of a struct: whether it was read, and what the struct holds then.
  unfoldable pub quick_get : (d : Struct) → Json → Vals Real d.members → Bool × Vals Real d.members
  quick_get d j s =
      if lib.is_null j
      then (false, s)
      else if is_object j
      then from_json lib unset d j s
      else (false, s)

  abbrev pub answer : Json → Vals Real web_response_pack_base.members
  answer j =
      (quick_get web_response_pack_base j (defaults lib unset web_response_pack_base.members)).1

  -- With a callback. The name of the local file is empty, and its pointer is given.
  unfoldable pub briage_https_post_content : (List ℕ → Option Json) → Transfer → ℤ × Exchange
  briage_https_post_content parse t =
      let p = https_post_content t (some []) none [] in
      taken Real p (answer (parsed lib (parse (c_text (answer_text p.content)))))
