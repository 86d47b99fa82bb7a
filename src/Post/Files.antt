-- ===== src/Post/Files.antt =====
-- Files, apps, and the forms of registration:
-- lines 1112 to 1240 of eWebRequest.cpp, one clause for each method of `eWebRequest`.
use Prim.Native.String.{String}
use vncc.Base.{Bool, if◌then◌else◌, List, [], ◌∷◌, Option, none, some}
use vncc.Instructions.{ℤ, pos}
use vncc.Post.{number, letters, real, numbers, object, fields, app, notify, Request}

pub data FileCall (Real J : Type 0) : Type 0 where
  user_files :
      (user_id : ℤ)
      → (access_token : String) → (file_classify : ℤ) → (search_key : String) → (current_page : ℤ)
      → (page_size : ℤ) → FileCall Real J
  inatall_app :
      (user_id : ℤ)
      → (access_token : String) → (userfileid : ℤ) → (mobile_device_ids : List ℤ)
      → (device_order_ids : List ℤ) → FileCall Real J
  root_device :
      (user_id : ℤ)
      → (access_token : String) → (mobile_device_ids : List ℤ) → (device_order_ids : List ℤ)
      → (broot : Bool) → FileCall Real J
  get_email_code : (email : String) → (code_type : ℤ) → FileCall Real J
  register_email : (email : String) → (pwd : String) → (pncode : String) → FileCall Real J
  register_by_phone : (email : String) → (pwd : String) → (pncode : String) → FileCall Real J
  forgot_pass : (email : String) → (pwd : String) → (pncode : String) → FileCall Real J
  mobile_pwd_rst : (acc : String) → (pwd : String) → (pncode : String) → FileCall Real J
  get_apps :
      (search_key : String)
      → (app_type : ℤ) → (current_page : ℤ) → (page_size : ℤ) → FileCall Real J
  upload_file_sucess :
      (user_id : ℤ)
      → (access_token : String) → (file_name : String) → (file_path : String) → (md5 : String)
      → (file_size : Real) → (file_type : String) → (file_extend_json : String)
      → (upload_channel : ℤ) → (file_classify : ℤ) → (package_name : String) → (file_desc : String)
      → (file_version : String) → FileCall Real J

module _ {Real J : Type 0} where
  unfoldable pub file_request : FileCall Real J → Request Real J
  file_request (user_files user_id access_token file_classify search_key current_page page_size) =
      record {
        domain = app;
        path = "uc/userfiles";
        body =
            (("UserID", number user_id)
              ∷ ("AccessToken", letters access_token)
              ∷ ("FileClassify", number file_classify)
              ∷ ("SearchKey", letters search_key)
              ∷ ("CurrentPage", number current_page)
              ∷ ("PageSize", number page_size)
              ∷ []);
      }
  file_request (inatall_app user_id access_token userfileid mobile_device_ids device_order_ids) =
      record {
        domain = app;
        path = "device/CommandChannel";
        body =
            (("UserID", number user_id)
              ∷ ("AccessToken", letters access_token)
              ∷ ("CommandType", number (pos 12))
              ∷ (
                "Command",
                object (
                    fields (
                      ("UserFileID", number userfileid)
                      ∷ ("MobileDeviceIDs", numbers mobile_device_ids)
                      ∷ ("DeviceOrderIDs", numbers device_order_ids)
                      ∷ [])),
              )
              ∷ []);
      }
  file_request (root_device user_id access_token mobile_device_ids device_order_ids broot) =
      record {
        domain = app;
        path = "device/CommandChannel";
        body =
            (("UserID", number user_id)
              ∷ ("AccessToken", letters access_token)
              ∷ ("CommandType", number (pos 19))
              ∷ (
                "Command",
                object (
                    fields (
                      ("MobileDevices", numbers mobile_device_ids)
                      ∷ ("DeviceOrderIDs", numbers device_order_ids)
                      ∷ ("RootStaus", number (if broot then pos 1 else pos 0))
                      ∷ [])),
              )
              ∷ []);
      }
  file_request (get_email_code email code_type) = record {
    domain = app;
    path = "uc/GetEmailCode";
    body = (("Email", letters email) ∷ ("CodeType", number code_type) ∷ []);
  }
  file_request (register_email email pwd pncode) = record {
    domain = app;
    path = "uc/register";
    body =
        (("EmailAccount", letters email)
          ∷ ("PassWord", letters pwd)
          ∷ ("EmailCode", letters pncode)
          ∷ []);
  }
  file_request (register_by_phone email pwd pncode) = record {
    domain = app;
    path = "uc/register";
    body =
        (("MobilePhone", letters email)
          ∷ ("PassWord", letters pwd)
          ∷ ("Code", letters pncode)
          ∷ ("RegisterType", number (pos 6))
          ∷ []);
  }
  file_request (forgot_pass email pwd pncode) = record {
    domain = app;
    path = "uc/ForgotPass";
    body =
        (("Email", letters email) ∷ ("PassWord", letters pwd) ∷ ("EmailCode", letters pncode) ∷ []);
  }
  file_request (mobile_pwd_rst acc pwd pncode) = record {
    domain = app;
    path = "uc/ForgotPass";
    body =
        (("MobilePhone", letters acc)
          ∷ ("PassWord", letters pwd)
          ∷ ("Code", letters pncode)
          ∷ ("ForgotType", number (pos 6))
          ∷ []);
  }
  file_request (get_apps search_key app_type current_page page_size) = record {
    domain = notify;
    path = "appmarket/GetApps";
    body =
        (("PhoneGUID", letters "")
          ∷ ("AppType", number app_type)
          ∷ ("SearchKey", letters search_key)
          ∷ ("CurrentPage", number current_page)
          ∷ ("PageSize", number page_size)
          ∷ []);
  }
  file_request
        (upload_file_sucess user_id access_token file_name file_path md5 file_size file_type
          file_extend_json upload_channel file_classify package_name file_desc file_version) =
      record {
        domain = app;
        path = "sys/UploadFileSucess";
        body =
            (("UserID", number user_id)
              ∷ ("AccessToken", letters access_token)
              ∷ ("FileName", letters file_name)
              ∷ ("FilePath", letters file_path)
              ∷ ("FileMd5", letters md5)
              ∷ ("FileSize", real file_size)
              ∷ ("FileType", letters file_type)
              ∷ ("FileExtendJson", letters file_extend_json)
              ∷ ("UploadChannel", number upload_channel)
              ∷ ("FileClassify", number file_classify)
              ∷ ("PackageName", letters package_name)
              ∷ ("FileVersion", letters file_version)
              ∷ ("FileDesc", letters file_desc)
              ∷ []);
      }

-- The user and the token that the method sends for the server to check.
abbrev pub file_user : {Real J : Type 0} → FileCall Real J → Option (ℤ × String)
file_user (user_files user_id access_token _ _ _ _) = some (user_id, access_token)
file_user (inatall_app user_id access_token _ _ _) = some (user_id, access_token)
file_user (root_device user_id access_token _ _ _) = some (user_id, access_token)
file_user (upload_file_sucess user_id access_token _ _ _ _ _ _ _ _ _ _ _) =
    some (user_id, access_token)
file_user _ = none
