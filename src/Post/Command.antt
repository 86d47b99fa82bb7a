-- ===== src/Post/Command.antt =====
-- Commands to phones, and connecting to one:
-- lines 896 to 1004 of eWebRequest.cpp, one clause for each method of `eWebRequest`.
use Prim.Native.String.{String}
use vncc.Base.{Bool, if◌then◌else◌, List, [], ◌∷◌, Option, some}
use vncc.Instructions.{ℤ, pos}
use vncc.Post.{
  number, letters, flag, numbers, given, object, fields, app, Request, when, ◌<ℤ◌, given_text,
  country_texts,
}

pub data CommandCall (Real J : Type 0) : Type 0 where
  command_reboot :
      (user_id : ℤ)
      → (access_token : String) → (ids : List ℤ) → (orderids : List ℤ)
      → (is_update_resolution : Bool) → (width : ℤ) → (height : ℤ) → (dpi : ℤ) → (resolution_id : ℤ)
      → CommandCall Real J
  command_recove_factory :
      (user_id : ℤ)
      → (access_token : String) → (ids : List ℤ) → (orderids : List ℤ) → (is_retain : Bool)
      → CommandCall Real J
  enable_new_device_info : (user_id : ℤ) → (access_token : String) → (info : J) → CommandCall Real J
  enable_device_values :
      (user_id : ℤ)
      → (access_token : String) → (ids : List ℤ) → (orderids : List ℤ)
      → (manufactuer : Option String) → (deviccetype : Option String)
      → (countrycode : Option String) → (operatorcode : Option String)
      → (networkcode : Option String) → (is_sim : Bool) → CommandCall Real J
  connect_phone :
      (user_id : ℤ) → (access_token : String) → (device_order_id : ℤ) → CommandCall Real J
  get_new_phone_scheme :
      (user_id : ℤ)
      → (access_token : String) → (current_page : ℤ) → (page_size : ℤ) → (deviceid : ℤ)
      → CommandCall Real J

module _ {Real J : Type 0} (show : ℤ → String) where
  unfoldable pub command_request : CommandCall Real J → Request Real J
  command_request
        (command_reboot user_id access_token ids orderids is_update_resolution width height dpi
          resolution_id) =
      record {
        domain = app;
        path = "device/CommandChannel";
        body =
            (("UserID", number user_id)
              ∷ ("AccessToken", letters access_token)
              ∷ ("CommandType", number (pos 3))
              ∷ (
                "Command",
                object (
                    fields (
                      ("MobileDevices", numbers ids)
                      ∷ ("DeviceOrderIDs", numbers orderids)
                      ∷ (if is_update_resolution
                          then ("IsUpdateResolution", flag is_update_resolution)
                            ∷ ("Width", number width)
                            ∷ ("Height", number height)
                            ∷ ("Dpi", letters (show dpi))
                            ∷ when (pos 0 <ℤ resolution_id) ("ResolutionId", number resolution_id)
                                []
                          else []))),
              )
              ∷ []);
      }
  command_request (command_recove_factory user_id access_token ids orderids is_retain) = record {
    domain = app;
    path = "device/CommandChannel";
    body =
        (("UserID", number user_id)
          ∷ ("AccessToken", letters access_token)
          ∷ ("CommandType", number (pos 4))
          ∷ (
            "Command",
            object (
                fields (
                  ("MobileDevices", numbers ids)
                  ∷ ("DeviceOrderIDs", numbers orderids)
                  ∷ ("IsRetain", flag is_retain)
                  ∷ [])),
          )
          ∷ []);
  }
  command_request (enable_new_device_info user_id access_token info) = record {
    domain = app;
    path = "device/CommandChannel";
    body =
        (("UserID", number user_id)
          ∷ ("AccessToken", letters access_token)
          ∷ ("CommandType", number (pos 8))
          ∷ ("Command", given info)
          ∷ []);
  }
  command_request
        (enable_device_values user_id access_token ids orderids manufactuer deviccetype countrycode
          operatorcode networkcode is_sim) =
      record {
        domain = app;
        path = "device/CommandChannel";
        body =
            (("UserID", number user_id)
              ∷ ("AccessToken", letters access_token)
              ∷ ("CommandType", number (pos 8))
              ∷ (
                "Command",
                object (
                    fields (
                      ("MobileDeviceIDs", numbers ids)
                      ∷ ("DeviceOrderIDs", numbers orderids)
                      ∷ ("IsSIM", flag is_sim)
                      ∷ given_text "Manufactuer" manufactuer (
                          given_text "DevicceType" deviccetype
                            (country_texts countrycode operatorcode networkcode)))),
              )
              ∷ []);
      }
  command_request (connect_phone user_id access_token device_order_id) = record {
    domain = app;
    path = "device/ConnectPhone";
    body =
        (("UserID", number user_id)
          ∷ ("AccessToken", letters access_token)
          ∷ ("DeviceOrderID", number device_order_id)
          ∷ []);
  }
  command_request (get_new_phone_scheme user_id access_token current_page page_size deviceid) =
      record {
        domain = app;
        path = "device/GetNewPhoneScheme";
        body =
            (("UserID", number user_id)
              ∷ ("AccessToken", letters access_token)
              ∷ ("CurrentPage", number current_page)
              ∷ ("PageSize", number page_size)
              ∷ ("DeviceOrderID", number deviceid)
              ∷ []);
      }

-- The user and the token that the method sends for the server to check.
abbrev pub command_user : {Real J : Type 0} → CommandCall Real J → Option (ℤ × String)
command_user (command_reboot user_id access_token _ _ _ _ _ _ _) = some (user_id, access_token)
command_user (command_recove_factory user_id access_token _ _ _) = some (user_id, access_token)
command_user (enable_new_device_info user_id access_token _) = some (user_id, access_token)
command_user (enable_device_values user_id access_token _ _ _ _ _ _ _ _) =
    some (user_id, access_token)
command_user (connect_phone user_id access_token _) = some (user_id, access_token)
command_user (get_new_phone_scheme user_id access_token _ _ _) = some (user_id, access_token)
