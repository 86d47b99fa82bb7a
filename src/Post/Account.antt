-- ===== src/Post/Account.antt =====
-- Signing in, the phones and their groups:
-- lines 777 to 894 of eWebRequest.cpp, one clause for each method of `eWebRequest`.
use Prim.Native.String.{String}
use vncc.Base.{Bool, ◌||◌, if◌then◌else◌, List, [], ◌∷◌, Option, none, some}
use vncc.Instructions.{ℤ, pos}
use vncc.Sysinit.{◌=ℤ=◌}
use vncc.Post.{number, letters, numbers, app, Request, when}

pub data AccountCall (Real J : Type 0) : Type 0 where
  login :
      (login_type : ℤ)
      → (unique_id : String) → (nick_name : String) → (photo : String) → (email_account : String)
      → (password : String) → (access_token : String) → AccountCall Real J
  rh_login : (username : String) → (password : String) → AccountCall Real J
  mobile_verify_login : (mobile_phone : String) → (code_text : String) → AccountCall Real J
  mobile_login : (mobile_phone : String) → (password : String) → AccountCall Real J
  user_phones :
      (user_id : ℤ)
      → (access_token : String) → (current_page : ℤ) → (page_size : ℤ) → AccountCall Real J
  user_phone :
      (user_id : ℤ)
      → (access_token : String) → (mobile_device_id : ℤ) → (device_order_id : ℤ)
      → AccountCall Real J
  all_groups : (user_id : ℤ) → (access_token : String) → AccountCall Real J
  deveice_groups :
      (user_id : ℤ)
      → (access_token : String) → (group_id : ℤ) → (current_page : ℤ) → (page_size : ℤ)
      → AccountCall Real J
  op_group :
      (user_id : ℤ)
      → (access_token : String) → (op : ℤ) → (group_id : ℤ) → (group_name : String)
      → AccountCall Real J
  get_user_device :
      (user_id : ℤ)
      → (access_token : String) → (ids : List ℤ) → (orderids : List ℤ) → AccountCall Real J

module _ {Real J : Type 0} (multidesk : Bool) where
  unfoldable pub account_request : AccountCall Real J → Request Real J
  account_request (login login_type unique_id nick_name photo email_account password access_token) =
      record {
        domain = app;
        path = "uc/login";
        body =
            (("LoginType", number login_type)
              ∷ ("UniqueID", letters unique_id)
              ∷ ("NickName", letters nick_name)
              ∷ ("Photo", letters photo)
              ∷ ("EmailAccount", letters email_account)
              ∷ ("Password", letters password)
              ∷ ("AccessToken", letters access_token)
              ∷ []);
      }
  account_request (rh_login username password) = record {
    domain = app;
    path = "usercenter/login";
    body = (("UserName", letters username) ∷ ("Password", letters password) ∷ []);
  }
  account_request (mobile_verify_login mobile_phone code_text) = record {
    domain = app;
    path = "uc/login";
    body =
        (("LoginType", number (pos 9))
          ∷ ("MobilePhone", letters mobile_phone)
          ∷ ("Code", letters code_text)
          ∷ []);
  }
  account_request (mobile_login mobile_phone password) = record {
    domain = app;
    path = "uc/login";
    body =
        (("LoginType", number (pos 6))
          ∷ ("MobilePhone", letters mobile_phone)
          ∷ ("Password", letters password)
          ∷ []);
  }
  account_request (user_phones user_id access_token current_page page_size) = record {
    domain = app;
    path = "uc/UserPhones";
    body =
        (("UserID", number user_id)
          ∷ ("AccessToken", letters access_token)
          ∷ ("CurrentPage", number current_page)
          ∷ ("PageSize", number page_size)
          ∷ []);
  }
  account_request (user_phone user_id access_token mobile_device_id device_order_id) = record {
    domain = app;
    path = "uc/UserPhone";
    body =
        (("UserID", number user_id)
          ∷ ("AccessToken", letters access_token)
          ∷ ("MobileDeviceID", number mobile_device_id)
          ∷ ("DeviceOrderID", number device_order_id)
          ∷ []);
  }
  account_request (all_groups user_id access_token) = record {
    domain = app;
    path = "device/Groups";
    body = (("UserID", number user_id) ∷ ("AccessToken", letters access_token) ∷ []);
  }
  account_request (deveice_groups user_id access_token group_id current_page page_size) = record {
    domain = app;
    path = "device/DeveiceGroups";
    body =
        (("UserID", number user_id)
          ∷ ("AccessToken", letters access_token)
          ∷ ("GroupID", number group_id)
          ∷ ("ModelID", number (if multidesk then pos 3 else pos 0))
          ∷ ("CurrentPage", number current_page)
          ∷ ("PageSize", number page_size)
          ∷ []);
  }
  account_request (op_group user_id access_token op group_id group_name) = record {
    domain = app;
    path = "device/OpGroup";
    body =
        (("UserID", number user_id)
          ∷ ("AccessToken", letters access_token)
          ∷ ("OP", number op)
          ∷ (when ((op =ℤ= pos 2) || (op =ℤ= pos 3)) ("GroupID", number group_id)
              (when ((op =ℤ= pos 1) || (op =ℤ= pos 3)) ("GroupName", letters group_name) [])));
  }
  account_request (get_user_device user_id access_token ids orderids) = record {
    domain = app;
    path = "device/GetUserDevice";
    body =
        (("UserID", number user_id)
          ∷ ("AccessToken", letters access_token)
          ∷ ("MobileDeviceIDs", numbers ids)
          ∷ ("DeviceOrderIDs", numbers orderids)
          ∷ []);
  }

-- The user and the token that the method sends for the server to check.
abbrev pub account_user : {Real J : Type 0} → AccountCall Real J → Option (ℤ × String)
account_user (user_phones user_id access_token _ _) = some (user_id, access_token)
account_user (user_phone user_id access_token _ _) = some (user_id, access_token)
account_user (all_groups user_id access_token) = some (user_id, access_token)
account_user (deveice_groups user_id access_token _ _ _) = some (user_id, access_token)
account_user (op_group user_id access_token _ _ _) = some (user_id, access_token)
account_user (get_user_device user_id access_token _ _) = some (user_id, access_token)
account_user _ = none
