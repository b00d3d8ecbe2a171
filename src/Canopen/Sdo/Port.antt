-- ===== src/Canopen/Sdo/Port.antt =====
-- The typed accessors of the SDO client, over any object with its `download` and `upload`: the
-- client itself, or the recorder that stands for it in the tests.
use hil_lab.Prelude.{ℕ, Bool, true, false, List, ◌==◌, not, length}
use hil_lab.Prelude.Int.{ℤ}
use hil_lab.Prelude.Bytes.{from_le, to_bytes}
use hil_lab.Errors.{or_err, Exec, pure, lift, raise_if, ◌>>=◌, ◌>>◌, overflow_error, runtime_error}
use hil_lab.Canopen.Frame.Bus.{CanBus}
use hil_lab.Canopen.Sdo.{CanopenSdoClient, SdoUpload, download, upload}

pub record SdoPort : Type 1 where
  pub State : Type 0
  pub download : ℕ → ℕ → List ℕ → Exec State Unit
  pub upload : ℕ → ℕ → Exec State SdoUpload

abbrev pub client_port : CanBus → CanopenSdoClient → SdoPort
client_port bus c = record {
  State = bus.State;
  download = λ index subindex. download bus c index subindex;
  upload = λ index subindex. upload bus c index subindex;
}

module _ (sdo : SdoPort) (index subindex : ℕ) where
  abbrev download_int : Bool → ℕ → ℤ → Exec sdo.State Unit
  download_int signed width value =
      lift (or_err (to_bytes signed width value) overflow_error) >>= sdo.download index subindex

  abbrev pub download_u8 : ℤ → Exec sdo.State Unit
  download_u8 = download_int false 1

  abbrev pub download_i8 : ℤ → Exec sdo.State Unit
  download_i8 = download_int true 1

  abbrev pub download_u16 : ℤ → Exec sdo.State Unit
  download_u16 = download_int false 2

  abbrev pub download_i16 : ℤ → Exec sdo.State Unit
  download_i16 = download_int true 2

  abbrev pub download_u32 : ℤ → Exec sdo.State Unit
  download_u32 = download_int false 4

  abbrev pub download_i32 : ℤ → Exec sdo.State Unit
  download_i32 = download_int true 4

  abbrev pub upload_u16 : Exec sdo.State ℕ
  upload_u16 = do
    result ← sdo.upload index subindex
    raise_if (not (length result.content == 2)) runtime_error
    pure (from_le result.content)
