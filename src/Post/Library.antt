-- ===== src/Post/Library.antt =====
-- The device library, and settings of single phones:
-- lines 1006 to 1061 of eWebRequest.cpp, one clause for each method of `eWebRequest`.
use Prim.Native.String.{String}
use vncc.Base.{List, [], ◌∷◌, Option, none, some}
use vncc.Instructions.{ℤ}
use vncc.Post.{number, letters, numbers, app, Request}

pub data LibraryCall (Real J : Type 0) : Type 0 where
  get_device_library : (user_id : ℤ) → (access_token : String) → LibraryCall Real J
  random_device_library :
      (user_id : ℤ)
      → (access_token : String) → (vendor : String) → (phone_model : String) → LibraryCall Real J
  set_function :
      (user_id : ℤ)
      → (access_token : String) → (mobile_device_id : ℤ) → (device_order_id : ℤ) → (func : ℤ)
      → (name : String) → (state : ℤ) → LibraryCall Real J
  move_deveice_to_group :
      (user_id : ℤ)
      → (access_token : String) → (to_group_id : ℤ) → (mobile_device_ids : List ℤ)
      → (device_order_ids : List ℤ) → (from_group_id : ℤ) → LibraryCall Real J
  sys_init : LibraryCall Real J

module _ {Real J : Type 0} where
  unfoldable pub library_request : LibraryCall Real J → Request Real J
  library_request (get_device_library user_id access_token) = record {
    domain = app;
    path = "device/GetDeviceLibrary";
    body = (("UserID", number user_id) ∷ ("AccessToken", letters access_token) ∷ []);
  }
  library_request (random_device_library user_id access_token vendor phone_model) = record {
    domain = app;
    path = "device/RandomDeviceLibrary";
    body =
        (("UserID", number user_id)
          ∷ ("AccessToken", letters access_token)
          ∷ ("Vendor", letters vendor)
          ∷ ("PhoneModel", letters phone_model)
          ∷ []);
  }
  library_request
        (set_function user_id access_token mobile_device_id device_order_id func name state) =
      record {
        domain = app;
        path = "device/SetFunction";
        body =
            (("UserID", number user_id)
              ∷ ("AccessToken", letters access_token)
              ∷ ("MobileDeviceID", number mobile_device_id)
              ∷ ("DeviceOrderID", number device_order_id)
              ∷ ("Func", number func)
              ∷ ("Name", letters name)
              ∷ ("State", number state)
              ∷ []);
      }
  library_request
        (move_deveice_to_group user_id access_token to_group_id mobile_device_ids device_order_ids
          from_group_id) =
      record {
        domain = app;
        path = "device/MoveDeveiceToGroup";
        body =
            (("UserID", number user_id)
              ∷ ("AccessToken", letters access_token)
              ∷ ("ToGroupID", number to_group_id)
              ∷ ("MobileDeviceIDs", numbers mobile_device_ids)
              ∷ ("DeviceOrderIDs", numbers device_order_ids)
              ∷ ("FromGroupID", number from_group_id)
              ∷ []);
      }
  library_request sys_init = record { domain = app; path = "sys/SysInit"; body = [] }

-- The user and the token that the method sends for the server to check.
abbrev pub library_user : {Real J : Type 0} → LibraryCall Real J → Option (ℤ × String)
library_user (get_device_library user_id access_token) = some (user_id, access_token)
library_user (random_device_library user_id access_token _ _) = some (user_id, access_token)
library_user (set_function user_id access_token _ _ _ _ _) = some (user_id, access_token)
library_user (move_deveice_to_group user_id access_token _ _ _ _) = some (user_id, access_token)
library_user _ = none
