-- ===== src/Canopen/Tests/Transfers.antt =====
-- SDO transfers and PDO mappings at concrete inputs.
use text.Mathlib.Text.{◌==◌ as str_eq}
use hil_lab.Prelude.{
  ◌≡◌, ◌≢◌, ◌⊎◌, inl, refl, String, Option, some, none, [], ◌∷◌, ◌++◌, arith, All, if◌then◌else◌,
}
use hil_lab.Prelude.Int.{ℤ, pos, negsuc}
use hil_lab.Prelude.Bytes.{to_bytes, from_bytes}
use hil_lab.Errors.{ok, err, runtime_error}
use hil_lab.Canopen.Frame.{CanFrame}
use hil_lab.Canopen.Frame.Bus.{fake_bus}
use hil_lab.Canopen.Sdo.{CanopenSdoClient, response_loop, download, upload}
use hil_lab.Canopen.Sdo.Response.{Answers, Aborts, IsSkipped, response_loop-Answers}
use hil_lab.Canopen.Sdo.Transfer.{
  confirmation, upload_answer, download_request, upload_request, download-confirmed,
  upload-answered,
}
use hil_lab.Canopen.Pdo.{PdoMapping, encode, decode, Dict, lookup, configure_pdo_mapping}
use hil_lab.Canopen.Pdo.Codec.{Agrees, IsMapping, decode-encode}
use hil_lab.Canopen.Pdo.Configure.{run_writes, body, enable, configure_pdo_mapping-eq_writes}
use hil_lab.Canopen.Pdo.Interrupted.{recorder, Disables, start, configure_pdo_mapping-disabled}
use hil_lab.Canopen.Pdo.Profiles.{cia402_rpdo_csv, profiles-IsMapping}

abbrev client : CanopenSdoClient
client = record { node_id = 1; max_frames = 32 }

abbrev other : CanFrame
other = record { can_id = 0x705; payload = 5 ∷ [] }

abbrev abort : CanFrame
abort = record { can_id = 0x581; payload = 0x80 ∷ 0 ∷ 0x20 ∷ 0 ∷ 0 ∷ 0 ∷ 2 ∷ 6 ∷ [] }

response_loop-Answers_example : Answers client 0x6040 0 (confirmation client 0x6040 0)
unfolding response_loop
response_loop-Answers_example =
    response_loop-Answers fake_bus client 0x6040 0 1
      (record { responses = confirmation client 0x6040 0 ∷ []; sent = [] })
      (record { responses = []; sent = [] }) (confirmation client 0x6040 0) refl

other_node : IsSkipped client 0x6040 0 other
other_node = inl (omega arith)

download-confirmed_example :
    download fake_bus client 0x6040 0
      (6 ∷ 0 ∷ [])
      (record { responses = other ∷ confirmation client 0x6040 0 ∷ []; sent = [] })
    ≡ (ok tt, record { responses = []; sent = download_request client 0x6040 0 (6 ∷ 0 ∷ []) ∷ [] })
download-confirmed_example =
    download-confirmed client 0x6040 0 (omega arith) (omega arith) (6 ∷ 0 ∷ []) (other ∷ []) [] []
      (omega arith) (omega arith) (other_node, tt) (omega arith)

upload-answered_example :
    upload fake_bus client 0x6041 0
      (record { responses = other ∷ upload_answer client 0x6041 0 (0x27 ∷ 0 ∷ []) ∷ []; sent = [] })
    ≡ (
      ok (record { index = 0x6041; subindex = 0; content = 0x27 ∷ 0 ∷ [] }),
      record { responses = []; sent = upload_request client 0x6041 0 ∷ [] },
    )
upload-answered_example =
    upload-answered client 0x6041 0 (omega arith) (omega arith) (0x27 ∷ 0 ∷ []) (other ∷ []) [] []
      (omega arith) (omega arith) (inl (omega arith), tt) (omega arith)

abort-Aborts : Aborts client 0x2000 0 0x0602_0000 abort
abort-Aborts = record {
  from_node = refl;
  whole = refl;
  same_index = refl;
  same_subindex = refl;
  is_abort = refl;
  with_code = refl;
}

abbrev csv : PdoMapping
csv = cia402_rpdo_csv

csv-IsMapping : IsMapping csv
csv-IsMapping = profiles-IsMapping.1.0

-- The values of the tests: a negative velocity among them.
abbrev values : String → Option ℤ
values k =
    if str_eq k "controlword"
    then some (pos 15)
    else if str_eq k "mode"
    then some (pos 9)
    else if str_eq k "target_velocity"
    then some (negsuc 1233)
    else none

abbrev csv_frame : CanFrame
csv_frame = record { can_id = 0x200; payload = 15 ∷ 0 ∷ 9 ∷ 0x2e ∷ 0xfb ∷ 0xff ∷ 0xff ∷ [] }

encode-csv : encode csv values ≡ ok csv_frame
unfolding encode to_bytes
encode-csv = refl

decode-csv :
    decode csv csv_frame
    ≡ ok (("controlword", pos 15) ∷ ("mode", pos 9) ∷ ("target_velocity", negsuc 1233) ∷ [])
unfolding decode from_bytes
decode-csv = refl

decode-encode_example :
    (d : Dict) × (decode csv csv_frame ≡ ok d)
    × All (λ e. lookup e.name d ≡ values e.name) csv.entries
    × Agrees values d
decode-encode_example = decode-encode csv values csv_frame csv-IsMapping encode-csv

configure_pdo_mapping-eq_writes_example :
    configure_pdo_mapping recorder 0x1600 0x1400 csv (some 1)
    ≡ run_writes recorder (body 0x1600 0x1400 csv (some 1) ++ enable 0x1400 csv ∷ [])
configure_pdo_mapping-eq_writes_example =
    configure_pdo_mapping-eq_writes recorder 0x1600 0x1400 csv (some 1) (omega arith) (omega arith)
      (omega arith) (omega arith) refl csv-IsMapping

-- The fourth write fails.
configure_pdo_mapping-disabled_example :
    let (r, s) =
      configure_pdo_mapping recorder 0x1600 0x1400 csv none
        (start (ok tt ∷ ok tt ∷ ok tt ∷ err runtime_error ∷ [])) in
    (s.log ≡ body 0x1600 0x1400 csv none ++ enable 0x1400 csv ∷ [])
    ⊎ ((r ≢ ok tt) × All (Disables 0x1400 csv) s.log)
configure_pdo_mapping-disabled_example =
    configure_pdo_mapping-disabled 0x1600 0x1400 csv none
      (ok tt ∷ ok tt ∷ ok tt ∷ err runtime_error ∷ []) (omega arith) (omega arith) (omega arith)
      (omega arith) refl csv-IsMapping (omega arith)
