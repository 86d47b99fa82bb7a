-- ===== src/Post/Content.antt =====
-- `BuildPostContent` of eWebRequest.cpp: what is posted for a request. Texts that leave the program
-- are lists of bytes. SHA-256, `%d` and `%lld`, the `dump` of the JSON library and the unique id are
-- parameters; `nr` is the random number, `now` the clock, and `stamp` the `time_stamp` of the last
-- answer. Without one of the four edition macros the file does not compile, as `channel_name` is
-- missing.
use Prim.Native.String.{String}
use package.text.Mathlib.Text.{◌==◌}
use vncc.Base.{ascii, ℕ, zero, suc, ◌+◌, ◌-◌, if◌then◌else◌, List, [], ◌∷◌, ◌++◌, get_or}
use vncc.Instructions.{ℤ, pos, negsuc}
use vncc.Post.{number, letters, Body}
use vncc.Web.{url_encode}

pub data Edition : Type 0 where
  ecalc mainland kaopu multidesk : Edition

pub record Release : Type 0 where
  pub device_type : ℕ
  pub channel_name : String
  pub request_source : ℕ
  pub domain : String
  pub notify_domain : String
  pub pack_name : String
  pub keys : List String

abbrev pub release : Edition → Release
release ecalc = record {
  device_type = 8;
  channel_name = "pc_main";
  request_source = 6;
  domain = "http://app.cloudecalc.com/";
  notify_domain = "http://notify.cloudecalc.com/";
  pack_name = "com.cloudecalc.mobile";
  keys =
      "b5835174-6c62-40d0-b1af-0515346f7974" ∷ "6ed13599-f54a-4d02-a30e-da4bc1547450"
      ∷ "c99ab486-6d67-455f-a1ac-2a028651a177" ∷ "c03800a8-bb76-4b83-bdc5-a3c6825ccf69"
      ∷ "6995108e-bba9-47b3-87e3-36e6659412ef" ∷ "8eb551ad-749c-4b36-945f-3f78ed657a17"
      ∷ "33dad5d6-90d1-49f8-ad59-21acab489389" ∷ "0e6e254b-f497-4a16-a94e-adefceeddaf3" ∷ [];
}
release mainland = record {
  device_type = 8;
  channel_name = "pc_main";
  request_source = 6;
  domain = "http://app.taoxyun.com/";
  notify_domain = "http://notify.taoxyun.com/";
  pack_name = "com.taoxinyun.mobile";
  keys =
      "9e932e8f-6ad7-8c90-8c23-e696c3e23cb5" ∷ "39bb8c0f-0c16-0f90-123e-6af27bc231db"
      ∷ "04cf259e-9c1f-f7a7-84c2-f334e1ec3f4a" ∷ "9626a5cf-b2d9-9fa8-22d7-ff6b6e70f6e7"
      ∷ "5fa17582-ebb3-7a24-ed16-b05b2f1ff4b5" ∷ "d20974d7-877a-b021-8e1c-adb7e9d19cac"
      ∷ "22df7953-dc53-31b2-9518-cde2ad19e662" ∷ "253c5188-f28f-f281-994f-07e393960a57" ∷ [];
}
release kaopu = record {
  device_type = 8;
  channel_name = "pc_main";
  request_source = 6;
  domain = "http://papp.anytiktok.com/";
  notify_domain = "http://notify.cloudecalc.com/";
  pack_name = "com.cloudecalc.mobile";
  keys =
      "ab1bcd29-b508-b8f6-7add-a3a453100263" ∷ "5e56f732-fbc3-77c7-3075-325ef5d25fb7"
      ∷ "0b712268-7887-e94f-ea41-b8f928fc9588" ∷ "2db44a8d-08c9-2fac-e8f8-42edcac1be48"
      ∷ "19061eef-5d57-8487-6792-15e980270d90" ∷ "e053c953-9d6e-0955-9c97-8ce49a7a994a"
      ∷ "ce5fd850-1c77-67b3-f65d-436713362f11" ∷ "b5cce23a-5c6a-20a6-7e69-92f76026a634" ∷ [];
}
release multidesk = record {
  device_type = 9;
  channel_name = "win_main";
  request_source = 15;
  domain = "http://apprhos.taoxyun.com/";
  notify_domain = "http://notify.cloudecalc.com/";
  pack_name = "win_main";
  keys =
      "9e932e8f-6ad7-8c90-8c23-e696c3e23cb5" ∷ "39bb8c0f-0c16-0f90-123e-6af27bc231db"
      ∷ "04cf259e-9c1f-f7a7-84c2-f334e1ec3f4a" ∷ "9626a5cf-b2d9-9fa8-22d7-ff6b6e70f6e7"
      ∷ "5fa17582-ebb3-7a24-ed16-b05b2f1ff4b5" ∷ "d20974d7-877a-b021-8e1c-adb7e9d19cac"
      ∷ "22df7953-dc53-31b2-9518-cde2ad19e662" ∷ "253c5188-f28f-f281-994f-07e393960a57" ∷ [];
}

-- `json[name] = v` on an object.
abbrev pub assign {ℓ} : {A : Type ℓ} → String → A → List (String × A) → List (String × A)
assign name v [] = (name, v) ∷ []
assign name v ((n, w) ∷ rest) =
    let later = assign name v rest in if n == name then (n, v) ∷ rest else (n, w) ∷ later

abbrev pub assign_all {ℓ} : {A : Type ℓ} → List (String × A) → List (String × A) → List (String × A)
assign_all [] body = body
assign_all ((name, v) ∷ rest) body = assign_all rest (assign name v body)

-- What `BuildPostContent` sets in every request; `g_i_ver` is printed, and "zh_cn" has had its
-- underscore replaced.
abbrev pub environment : {Real J : Type 0} → Edition → Body Real J
environment e =
    ("IMEI", letters "WIN_IMEI")
    ∷ ("DeviceType", number (pos (release e).device_type))
    ∷ ("Version", letters "10001")
    ∷ ("VersionName", letters "1.0.0.1")
    ∷ ("ChannelName", letters (release e).channel_name)
    ∷ ("DeviceCode", letters "WIN")
    ∷ ("PackageType", letters (release e).pack_name)
    ∷ ("RequestSource", number (pos (release e).request_source))
    ∷ ("property", letters "WIN_property")
    ∷ ("Language", letters "zh-cn")
    ∷ []

unfoldable pub complete : {Real J : Type 0} → Edition → Body Real J → Body Real J
complete e body = assign_all (environment e) body

-- The distance of the clock from the last answer's stamp, or the clock if there is no stamp.
abbrev pub send_stamp : ℕ → ℤ → ℕ
send_stamp now (pos zero) = now
send_stamp now (pos (suc t)) = (now - suc t) + (suc t - now)
send_stamp now (negsuc t) = now + (t + 1)

abbrev pub Form : Type 0
Form = List (List ℕ × List ℕ)

-- The format of `strDst`: names and values with '=', parted by '&'.
abbrev pub join : Form → List ℕ
join [] = []
join ((name, v) ∷ []) = name ++ 61 ∷ v
join ((name, v) ∷ rest) = name ++ 61 ∷ (v ++ 38 ∷ join rest)

abbrev pub key_of : Edition → ℕ → List ℕ
key_of e nr = ascii (get_or (release e).keys nr "")

module _ (sha256 : List ℕ → List ℕ) (show : ℕ → List ℕ) where
  unfoldable pub post_form : Edition → ℕ → ℕ → ℤ → List ℕ → List ℕ → Form
  post_form e nr now stamp reqid data_text =
      let ts = show (send_stamp now stamp) in
      let sign = sha256 (data_text ++ (show nr ++ (reqid ++ (ts ++ key_of e nr)))) in
      (ascii "r", show nr)
      ∷ (ascii "sign", sign)
      ∷ (ascii "data", url_encode data_text)
      ∷ (ascii "ChannelName", ascii (release e).channel_name)
      ∷ (ascii "DeviceCode", ascii "LINUX")
      ∷ (ascii "DeviceType", show 3)
      ∷ (ascii "IMEI", ascii "LINUX_IMEI")
      ∷ (ascii "PackageType", ascii "main")
      ∷ (ascii "TimeStamp", ts)
      ∷ (ascii "Version", show 10001)
      ∷ (ascii "VersionName", ascii "1.0.0.01")
      ∷ (ascii "RequestID", reqid)
      ∷ []

  module _ {Real J : Type 0} (dump : Body Real J → List ℕ) where
    unfoldable pub build_post_content : Edition → ℕ → ℕ → ℤ → List ℕ → Body Real J → List ℕ
    build_post_content e nr now stamp reqid body =
        join (post_form e nr now stamp reqid (dump (complete e body)))
