-- ===== src/Post/Patches.antt =====
-- Versions, collected data, patches and codes:
-- lines 1242 to 1348 of eWebRequest.cpp, one clause for each method of `eWebRequest`.
use Prim.Native.String.{String}
use vncc.Base.{List, [], ◌∷◌, Option, none, some}
use vncc.Instructions.{ℤ, pos}
use vncc.Post.{number, letters, numbers, texts, object, fields, app, Request}

pub data PatchCall (Real J : Type 0) : Type 0 where
  get_app_version : PatchCall Real J
  update_user_info :
      (user_id : ℤ) → (access_token : String) → (update_infos : String) → PatchCall Real J
  app_data_collect :
      (user_id : ℤ)
      → (access_token : String) → (data_type : String) → (value : String) → PatchCall Real J
  log_collect :
      (user_id : ℤ)
      → (access_token : String) → (data_type : String) → (value : String) → PatchCall Real J
  config_data : PatchCall Real J
  patch :
      (user_id : ℤ)
      → (access_token : String) → (devices : List ℤ) → (orderids : List ℤ)
      → (patch_guids : List String) → PatchCall Real J
  check_valid_patch :
      (user_id : ℤ) → (access_token : String) → (patch_guids : List String) → PatchCall Real J
  check_patch :
      (user_id : ℤ) → (access_token : String) → (task_guids : List String) → PatchCall Real J
  delete_cloud_file :
      (user_id : ℤ) → (access_token : String) → (user_file_id : ℤ) → PatchCall Real J
  pn_code : (phone_num : String) → (code_model : ℤ) → (code_type : ℤ) → PatchCall Real J
  change_break_device :
      (user_id : ℤ) → (access_token : String) → (deviceid : ℤ) → (orderid : ℤ) → PatchCall Real J

module _ {Real J : Type 0} where
  unfoldable pub patch_request : PatchCall Real J → Request Real J
  patch_request get_app_version = record { domain = app; path = "sys/GetAppVersion"; body = [] }
  patch_request (update_user_info user_id access_token update_infos) = record {
    domain = app;
    path = "uc/UpdateUserInfo";
    body =
        (("UserID", number user_id)
          ∷ ("AccessToken", letters access_token)
          ∷ ("UpdateInfos", letters update_infos)
          ∷ []);
  }
  patch_request (app_data_collect user_id access_token data_type value) = record {
    domain = app;
    path = "sys/AppDataCollect";
    body = (("DataType", letters data_type) ∷ ("Data", letters value) ∷ []);
  }
  patch_request (log_collect user_id access_token data_type value) = record {
    domain = app;
    path = "sys/LogCollect";
    body = (("DataType", letters data_type) ∷ ("Data", letters value) ∷ []);
  }
  patch_request config_data = record { domain = app; path = "sys/ConfigData"; body = [] }
  patch_request (patch user_id access_token devices orderids patch_guids) = record {
    domain = app;
    path = "device/CommandChannel";
    body =
        (("UserID", number user_id)
          ∷ ("AccessToken", letters access_token)
          ∷ ("CommandType", number (pos 20))
          ∷ (
            "Command",
            object (
                fields
                  (("DeviceOrderIDs", numbers orderids) ∷ ("PatchGUIDs", texts patch_guids) ∷ [])),
          )
          ∷ []);
  }
  patch_request (check_valid_patch user_id access_token patch_guids) = record {
    domain = app;
    path = "device/GetPatchGUIDStatus";
    body =
        (("UserID", number user_id)
          ∷ ("AccessToken", letters access_token)
          ∷ ("PatchGUIDs", texts patch_guids)
          ∷ []);
  }
  patch_request (check_patch user_id access_token task_guids) = record {
    domain = app;
    path = "device/GetInstallPatchPackageResult";
    body =
        (("UserID", number user_id)
          ∷ ("AccessToken", letters access_token)
          ∷ ("BatchGUIDs", texts task_guids)
          ∷ []);
  }
  patch_request (delete_cloud_file user_id access_token user_file_id) = record {
    domain = app;
    path = "sys/DeleteFile";
    body =
        (("UserID", number user_id)
          ∷ ("AccessToken", letters access_token)
          ∷ ("UserFileID", number user_file_id)
          ∷ []);
  }
  patch_request (pn_code phone_num code_model code_type) = record {
    domain = app;
    path = "uc/GetCode";
    body =
        (("MobilePhone", letters phone_num)
          ∷ ("GetCodeModel", number code_model)
          ∷ ("CodeType", number code_type)
          ∷ []);
  }
  patch_request (change_break_device user_id access_token deviceid orderid) = record {
    domain = app;
    path = "device/NewMobileDevice";
    body =
        (("UserID", number user_id)
          ∷ ("AccessToken", letters access_token)
          ∷ ("FaildMobileDeviceID", number deviceid)
          ∷ ("FaildDeviceOrderID", number orderid)
          ∷ []);
  }

-- The user and the token that the method sends for the server to check.
abbrev pub patch_user : {Real J : Type 0} → PatchCall Real J → Option (ℤ × String)
patch_user (update_user_info user_id access_token _) = some (user_id, access_token)
patch_user (patch user_id access_token _ _ _) = some (user_id, access_token)
patch_user (check_valid_patch user_id access_token _) = some (user_id, access_token)
patch_user (check_patch user_id access_token _) = some (user_id, access_token)
patch_user (delete_cloud_file user_id access_token _) = some (user_id, access_token)
patch_user (change_break_device user_id access_token _ _) = some (user_id, access_token)
patch_user _ = none
