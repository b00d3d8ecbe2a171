-- ===== src/Canopen/Pdo/Profiles.antt =====
-- The CiA 402 mappings of fieldbus/canopen/pdo.py.
use hil_lab.Prelude.{ℕ, String, true, false, List, [], ◌∷◌, All, arith}
use hil_lab.Canopen.Pdo.{PdoMappingEntry, PdoMapping}
use hil_lab.Canopen.Pdo.Codec.{IsMapping}

abbrev unsigned16 : String → ℕ → PdoMappingEntry
unsigned16 name index = record {
  name = name;
  index = index;
  subindex = 0;
  bits = 16;
  signed = false;
}

abbrev signed : String → ℕ → ℕ → PdoMappingEntry
signed name index bits = record {
  name = name;
  index = index;
  subindex = 0;
  bits = bits;
  signed = true;
}

abbrev pub cia402_rpdo_csp : PdoMapping
cia402_rpdo_csp = record {
  cob_id = 0x200;
  entries =
      unsigned16 "controlword" 0x6040
      ∷ signed "mode" 0x6060 8
      ∷ signed "target_position" 0x607a 32
      ∷ [];
}

abbrev pub cia402_rpdo_csv : PdoMapping
cia402_rpdo_csv = record {
  cob_id = 0x200;
  entries =
      unsigned16 "controlword" 0x6040
      ∷ signed "mode" 0x6060 8
      ∷ signed "target_velocity" 0x60ff 32
      ∷ [];
}

abbrev pub cia402_rpdo_cst : PdoMapping
cia402_rpdo_cst = record {
  cob_id = 0x200;
  entries =
      unsigned16 "controlword" 0x6040
      ∷ signed "mode" 0x6060 8
      ∷ signed "target_torque" 0x6071 16
      ∷ [];
}

abbrev pub cia402_tpdo_csp : PdoMapping
cia402_tpdo_csp = record {
  cob_id = 0x180;
  entries =
      unsigned16 "statusword" 0x6041
      ∷ signed "mode_display" 0x6061 8
      ∷ signed "position_actual" 0x6064 32
      ∷ [];
}

abbrev pub cia402_tpdo_csv : PdoMapping
cia402_tpdo_csv = record {
  cob_id = 0x180;
  entries =
      unsigned16 "statusword" 0x6041
      ∷ signed "mode_display" 0x6061 8
      ∷ signed "velocity_actual" 0x606c 32
      ∷ [];
}

abbrev pub cia402_tpdo_cst : PdoMapping
cia402_tpdo_cst = record {
  cob_id = 0x180;
  entries =
      unsigned16 "statusword" 0x6041
      ∷ signed "mode_display" 0x6061 8
      ∷ signed "torque_actual" 0x6077 16
      ∷ [];
}

abbrev pub profiles : List PdoMapping
profiles =
    cia402_rpdo_csp ∷ cia402_rpdo_csv ∷ cia402_rpdo_cst ∷ cia402_tpdo_csp ∷ cia402_tpdo_csv
    ∷ cia402_tpdo_cst ∷ []

pub profiles-IsMapping : All IsMapping profiles
profiles-IsMapping = omega arith
