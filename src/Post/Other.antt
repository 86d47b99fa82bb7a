-- ===== src/Post/Other.antt =====
-- Renaming, QR codes, messages and tokens:
-- lines 1350 to 1422 of eWebRequest.cpp, one clause for each method of `eWebRequest`.
use Prim.Native.String.{String}
use vncc.Base.{ℕ, ◌==◌, List, [], ◌∷◌, Option, none, some, length}
use vncc.Instructions.{ℤ, pos}
use vncc.Post.{number, letters, numbers, app, Request, when, renames, rename_rows}

pub data OtherCall (Real J : Type 0) : Type 0 where
  batch_rename :
      (user_id : ℤ)
      → (access_token : String) → (ids : List ℤ) → (names : List (List ℕ)) → OtherCall Real J
  country_cellular : (user_id : ℤ) → (access_token : String) → OtherCall Real J
  generate_qr : OtherCall Real J
  query_qr : (token : String) → OtherCall Real J
  msg_center :
      (user_id : ℤ)
      → (access_token : String) → (current_page : ℤ) → (page_size : ℤ) → OtherCall Real J
  get_device_token :
      (user_id : ℤ) → (access_token : String) → (orderids : List ℤ) → OtherCall Real J
  refresh_device_token : (user_id : ℤ) → (access_token : String) → (orderid : ℤ) → OtherCall Real J

module _ {Real J : Type 0} (sn : String) (utf8 : List ℕ → String) where
  unfoldable pub other_request : OtherCall Real J → Request Real J
  other_request (batch_rename user_id access_token ids names) = record {
    domain = app;
    path = "device/SetFunction";
    body =
        (("UserID", number user_id)
          ∷ ("AccessToken", letters access_token)
          ∷ ("Func", number (pos 1))
          ∷ ("OperationType", number (pos 1))
          ∷ when (length ids == length names)
              ("MobileDeviceList", renames (rename_rows utf8 ids names)) []);
  }
  other_request (country_cellular user_id access_token) = record {
    domain = app;
    path = "device/GetCountryMobileOperator";
    body = (("UserID", number user_id) ∷ ("AccessToken", letters access_token) ∷ []);
  }
  other_request generate_qr = record {
    domain = app;
    path = "qrcode/CreateCode";
    body = (("DeviceCode", letters sn) ∷ []);
  }
  other_request (query_qr token) = record {
    domain = app;
    path = "qrcode/GetUserInfo";
    body = (("CodeToken", letters token) ∷ []);
  }
  other_request (msg_center user_id access_token current_page page_size) = record {
    domain = app;
    path = "sys/MsgCenter";
    body =
        (("UserID", number user_id)
          ∷ ("AccessToken", letters access_token)
          ∷ ("CurrentPage", number current_page)
          ∷ ("Pagesize", number page_size)
          ∷ []);
  }
  other_request (get_device_token user_id access_token orderids) = record {
    domain = app;
    path = "device/GetDeviceTokens";
    body =
        (("UserID", number user_id)
          ∷ ("AccessToken", letters access_token)
          ∷ ("DeviceOrderIDs", numbers orderids)
          ∷ []);
  }
  other_request (refresh_device_token user_id access_token orderid) = record {
    domain = app;
    path = "device/RefreshDeviceToken";
    body =
        (("UserID", number user_id)
          ∷ ("AccessToken", letters access_token)
          ∷ ("DeviceOrderID", number orderid)
          ∷ []);
  }

-- The user and the token that the method sends for the server to check.
abbrev pub other_user : {Real J : Type 0} → OtherCall Real J → Option (ℤ × String)
other_user (batch_rename user_id access_token _ _) = some (user_id, access_token)
other_user (country_cellular user_id access_token) = some (user_id, access_token)
other_user (msg_center user_id access_token _ _) = some (user_id, access_token)
other_user (get_device_token user_id access_token _) = some (user_id, access_token)
other_user (refresh_device_token user_id access_token _) = some (user_id, access_token)
other_user _ = none
