-- ===== src/Post/Http.antt =====
-- One exchange with the server: `HttpsPostContent` of eWebRequest.cpp with the callbacks that curl
-- calls for what it receives. What curl itself does is the argument `Transfer`: whether it takes the
-- URL and gives a handle, the status and the pieces of the body that arrive, and its result when
-- no callback stops it. A callback that does not take the whole piece stops the transfer, with 23.
use vncc.Base.{
  ℕ, ◌+◌, Bool, true, false, ◌||◌, not, ◌==◌, if◌then◌else◌, List, [], ◌∷◌, ◌++◌, Option, none,
  some, length,
}
use vncc.Instructions.{ℤ, pos, negsuc}

pub record Transfer : Type 0 where
  pub url_ok : Bool
  pub handle_ok : Bool
  pub status : ℕ
  pub pieces : List (List ℕ)
  pub result : ℕ

-- `DOWNLOADFILEINFO`: the file's bytes if it is open.
pub record Download : Type 0 where
  pub http_status : ℕ
  pub fp : Option (List ℕ)
  pub write_size : ℕ

-- What opens the file is commented out in both cases; a redirection clears the status.
unfoldable pub headerwirtefunc : ℕ → Download → Download
headerwirtefunc status d =
    if (status == 301) || ((status == 302) || ((status == 307) || (status == 308)))
    then record d { http_status = 0 }
    else record d { http_status = status }

-- The number of bytes taken, and the download after it.
abbrev pub write_to : Option (List ℕ) → List ℕ → Download → ℕ × Download
write_to none contents d = (0, d)
write_to (some file) contents d = (
  length contents,
  record d { fp = some (file ++ contents); write_size = d.write_size + length contents },
)

unfoldable pub downloadwirtefunc : List ℕ → Download → ℕ × Download
downloadwirtefunc contents d = write_to d.fp contents d

unfoldable pub postwirtefunc : List ℕ → List ℕ → ℕ × List ℕ
postwirtefunc contents content = (length contents, content ++ contents)

-- The pieces in turn, until a callback does not take a whole one.
abbrev pub receive {ℓ} : {S : Type ℓ} → (List ℕ → S → ℕ × S) → List (List ℕ) → S → Bool × S
receive write [] s = (true, s)
receive write (piece ∷ rest) s =
    let (taken, s') = write piece s in
    let later = receive write rest s' in if taken == length piece then later else (false, s')

-- `*iRetcode`, `*out_ret`, which is also what the function returns, and the content.
pub record Posted : Type 0 where
  pub ret_code : ℤ
  pub ret : Bool
  pub content : List ℕ

-- With a local file, which is given as soon as the pointer is not null, three codes are a success.
abbrev pub succeeds : Bool → ℕ → Bool
succeeds true status = (status == 304) || ((status == 200) || (status == 206))
succeeds false status = status == 200

abbrev finish : Bool → ℕ → Transfer → Bool → List ℕ → Posted
finish has_path result t whole content =
    let code = if whole then result else 23 in
    record {
      ret_code = if code == 0 then pos t.status else pos code;
      ret = if code == 0 then succeeds has_path t.status else false;
      content = content ++ 0 ∷ [];
    }

-- `local` is `lpszLocalFilePath`; the content is written to a file only if its name is not empty and
-- there is a download.
abbrev to_file : Option (List ℕ) → Option Download → Option Download
to_file (some (c ∷ path)) (some d) = some d
to_file _ _ = none

abbrev is_given {ℓ} : {A : Type ℓ} → Option A → Bool
is_given none = false
is_given (some _) = true

abbrev transfer : Option Download → Bool → Transfer → List ℕ → Posted
transfer none has_path t content =
    let (whole, written) = receive postwirtefunc t.pieces [] in
    finish has_path t.result t whole written
transfer (some d) has_path t content =
    let (whole, _) = receive downloadwirtefunc t.pieces (headerwirtefunc t.status d) in
    finish has_path t.result t whole content

unfoldable pub https_post_content : Transfer → Option (List ℕ) → Option Download → List ℕ → Posted
unfolding postwirtefunc downloadwirtefunc
https_post_content t path download content =
    if not t.url_ok
    then record { ret_code = negsuc 0; ret = false; content = content }
    else if not t.handle_ok
    then record { ret_code = negsuc 0; ret = false; content = content ++ 0 ∷ [] }
    else transfer (to_file path download) (is_given path) t content
