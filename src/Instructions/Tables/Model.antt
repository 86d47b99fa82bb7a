-- ===== src/Instructions/Tables/Model.antt =====
-- The device models and the cellular networks:
-- the structs of common/eInstructions.h with the
-- names that common/eInstructions.cpp reads and writes.
use vncc.Base.{[], ◌∷◌, false}
use vncc.Instructions.{boolean, string, array, Fields, Struct, declare, long, of_struct}
use vncc.Instructions.Tables.Account.{pages}

abbrev pub phone_param_members : Fields
phone_param_members = declare (
    ("PhoneModel", string)
    ∷ ("SystemVersion", string)
    ∷ ("SerialNumber", string)
    ∷ ("IMEI", string)
    ∷ ("IMSI", string)
    ∷ ("ICCID", string)
    ∷ ("WIFI", string)
    ∷ ("WIFIMAC", string)
    ∷ ("AndroidID", string)
    ∷ ("PhoneNumber", string)
    ∷ ("Vendor", string)
    ∷ ("OAID", string)
    ∷ ("CountryCode", string)
    ∷ ("OperatorCode", string)
    ∷ ("NetworkCode", string)
    ∷ ("SchemeName", string)
    ∷ ("Numeric", string)
    ∷ ("CreateTime", string)
    ∷ ("IsSIM", boolean false)
    ∷ ("isHide", boolean false)
    ∷ ("ID", long 0)
    ∷ ("DeviceOrderID", long 0)
    ∷ [])

abbrev pub phone_param : Struct
phone_param = record {
  members = phone_param_members;
  reads =
      "PhoneModel" ∷ "SystemVersion" ∷ "SerialNumber" ∷ "IMEI" ∷ "IMSI" ∷ "ICCID" ∷ "WIFI"
      ∷ "WIFIMAC" ∷ "AndroidID" ∷ "PhoneNumber" ∷ "Vendor" ∷ "OAID" ∷ "CountryCode" ∷ "OperatorCode"
      ∷ "NetworkCode" ∷ "SchemeName" ∷ "IsSIM" ∷ "ID" ∷ "Numeric" ∷ "CreateTime" ∷ "isHide"
      ∷ "DeviceOrderID" ∷ [];
}

abbrev pub device_library_members : Fields
device_library_members =
    declare (("Vendor", string) ∷ ("PhoneParams", array (of_struct phone_param)) ∷ [])

abbrev pub device_library : Struct
device_library = record { members = device_library_members; reads = "Vendor" ∷ "PhoneParams" ∷ [] }

abbrev pub device_libs_members : Fields
device_libs_members = declare (("DeviceLibrarys", array (of_struct device_library)) ∷ [])

abbrev pub device_libs : Struct
device_libs = record { members = device_libs_members; reads = "DeviceLibrarys" ∷ [] }

abbrev pub phone_param_info_members : Fields
phone_param_info_members = declare (("PhoneParamInfo", of_struct phone_param) ∷ [])

abbrev pub phone_param_info : Struct
phone_param_info = record { members = phone_param_info_members; reads = "PhoneParamInfo" ∷ [] }

abbrev pub history_sln_members : Fields
history_sln_members = declare (("NewPhoneSchemes", array (of_struct phone_param)) ∷ [])

abbrev pub history_sln : Struct
history_sln = record { members = history_sln_members; reads = "NewPhoneSchemes" ∷ [] }

abbrev pub history_sln_page_members : Fields
history_sln_page_members = declare (("Page", of_struct pages) ∷ [])

abbrev pub history_sln_page : Struct
history_sln_page = record { members = history_sln_page_members; reads = "Page" ∷ [] }

abbrev pub network_members : Fields
network_members =
    declare (("NetworkName", string) ∷ ("NetworkCode", string) ∷ ("Numeric", string) ∷ [])

abbrev pub network : Struct
network = record {
  members = network_members;
  reads = "NetworkName" ∷ "NetworkCode" ∷ "Numeric" ∷ [];
}

abbrev pub isp_members : Fields
isp_members = declare (
    ("OperatorName", string)
    ∷ ("OperatorCode", string)
    ∷ ("NetworkCode", string)
    ∷ ("Numeric", string)
    ∷ ("NetworkList", array (of_struct network))
    ∷ [])

abbrev pub isp : Struct
isp = record {
  members = isp_members;
  reads = "OperatorName" ∷ "OperatorCode" ∷ "NetworkList" ∷ "NetworkCode" ∷ "Numeric" ∷ [];
}

abbrev pub country_cellular_members : Fields
country_cellular_members = declare (
    ("CountryName", string)
    ∷ ("CountryCode", string)
    ∷ ("MobileOperatorList", array (of_struct isp))
    ∷ [])

abbrev pub country_cellular : Struct
country_cellular = record {
  members = country_cellular_members;
  reads = "CountryName" ∷ "CountryCode" ∷ "MobileOperatorList" ∷ [];
}

abbrev pub country_cellular_array_members : Fields
country_cellular_array_members = declare (("CountryList", array (of_struct country_cellular)) ∷ [])

abbrev pub country_cellular_array : Struct
country_cellular_array = record {
  members = country_cellular_array_members;
  reads = "CountryList" ∷ [];
}
