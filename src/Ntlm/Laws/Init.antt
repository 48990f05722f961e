-- ===== src/Ntlm/Laws/Init.antt =====
-- The names in the first message.
use cifs_client_stream.Common.{
  ℕ, ◌^◌, ◌<◌, ◌≡◌, refl, sym, ap, subst, ◌∙◌, List, [], ◌∷◌, ◌++◌, Option, none, some, length, ok,
  done, arith, append-nil,
}
use cifs_client_stream.Errors.{NtlmError}
use cifs_client_stream.Stream.Buffer.{Bytes}
use cifs_client_stream.Smb.Wire.{Wire}
use cifs_client_stream.Smb.Wire.Plain.{plain, IsWire, plain-IsWire, of_plain, le_bytes}
use cifs_client_stream.Media.Names.{Name}
use cifs_client_stream.Utils.Unicode.{as_bytes}
use cifs_client_stream.Ntlm.{
  PacketEntry, binary, buffer, Packet, entry_len, base_len, append_binary, append_buffer, InitMsg,
  Version, put_origin, put_version, version_bytes, init_packet, init_bytes, to_bytes, ntlmssp_magic,
  ntlm_msg_init, new_packet,
}
use cifs_client_stream.Ntlm.Laws.{IsFit, IsWritable}
use cifs_client_stream.Ntlm.Laws.Buffers.{field_at, extended, to_bytes-field_at}

unfoldable head_packet : ℕ → Packet
unfolding append_binary
head_packet flags =
    append_binary (le_bytes 4 flags)
      (append_binary (le_bytes 4 ntlm_msg_init) (append_binary ntlmssp_magic new_packet))

unfoldable version_entries : Option Version → List PacketEntry
unfolding version_bytes
version_entries none = []
version_entries (some v) = binary (version_bytes plain v) ∷ []

tail_packet :
    (flags : ℕ) (domain workstation : Name) (version : Option Version)
    → init_packet plain (record {
      flags = flags;
      origin = some (record { workstation = workstation; domain = domain });
      version = version;
    })
      ≡ extended (version_entries version) [] (
          append_buffer
            (as_bytes workstation)
            (append_buffer (as_bytes domain) (head_packet flags)))
unfolding init_packet put_version put_origin append_buffer append_binary head_packet version_entries
tail_packet flags domain workstation none =
    let packet =
      append_buffer (as_bytes workstation) (append_buffer (as_bytes domain) (head_packet flags)) in
    ap (λ x. record packet { extra = x }) (sym (append-nil packet.extra))
tail_packet flags domain workstation (some v) =
    let packet = extended (version_entries (some v)) [] (
      append_buffer (as_bytes workstation) (append_buffer (as_bytes domain) (head_packet flags))) in
    ap (λ x. record packet { extra = x })
      (sym (append-nil (as_bytes domain ++ as_bytes workstation)))

front_packet :
    (flags : ℕ) (domain workstation : Name) (version : Option Version)
    → init_packet plain (record {
      flags = flags;
      origin = some (record { workstation = workstation; domain = domain });
      version = version;
    })
      ≡ extended
          (buffer (record {
            length = length (as_bytes workstation);
            capacity = length (as_bytes workstation);
            position = length (as_bytes domain);
          })
            ∷ version_entries version)
          (as_bytes workstation)
          (append_buffer (as_bytes domain) (head_packet flags))
unfolding init_packet put_version put_origin append_buffer append_binary head_packet version_entries
front_packet flags domain workstation none = refl
front_packet flags domain workstation (some v) = refl

init_packet-IsWritable :
    (flags : ℕ) (domain workstation : Name) (version : Option Version)
    → length (as_bytes domain) < 2 ^ 16
    → length (as_bytes workstation) < 2 ^ 16
    → IsWritable (
        init_packet plain (record {
          flags = flags;
          origin = some (record { workstation = workstation; domain = domain });
          version = version;
        }))
unfolding init_packet put_version put_origin append_buffer append_binary head_packet version_entries
    IsFit base_len entry_len le_bytes version_bytes
init_packet-IsWritable flags domain workstation none d w =
    (tt, (tt, (tt, ((d, d, omega arith), ((w, w, omega (arith, d)), tt)))))
init_packet-IsWritable flags domain workstation (some v) d w =
    (tt, (tt, (tt, ((d, d, omega arith), ((w, w, omega (arith, d)), (tt, tt))))))

module _ (nc : NtlmError) (flags : ℕ) (domain workstation : Name) (version : Option Version)
    (d : length (as_bytes domain) < 2 ^ 16) (w : length (as_bytes workstation) < 2 ^ 16) where
  abbrev msg : InitMsg
  msg = record {
    flags = flags;
    origin = some (record { workstation = workstation; domain = domain });
    version = version;
  }

  domain_plain :
      (out : Bytes) × (to_bytes plain nc (init_packet plain msg) ≡ ok out)
      × (field_at plain 16 out ≡ done (as_bytes domain))
  unfolding base_len entry_len head_packet append_binary le_bytes
  domain_plain =
      let e = front_packet flags domain workstation version in
      let r =
        to_bytes-field_at plain nc
          (buffer (record {
            length = length (as_bytes workstation);
            capacity = length (as_bytes workstation);
            position = length (as_bytes domain);
          })
            ∷ version_entries version)
          (as_bytes domain) (as_bytes workstation) (head_packet flags) plain-IsWire
          (subst IsWritable e (init_packet-IsWritable flags domain workstation version d w)) in
      (r.0, ap (to_bytes plain nc) e ∙ r.1, r.2)

  workstation_plain :
      (out : Bytes) × (to_bytes plain nc (init_packet plain msg) ≡ ok out)
      × (field_at plain 24 out ≡ done (as_bytes workstation))
  unfolding base_len entry_len head_packet append_binary append_buffer le_bytes
  workstation_plain =
      let e = tail_packet flags domain workstation version in
      let r =
        to_bytes-field_at plain nc (version_entries version) (as_bytes workstation) []
          (append_buffer (as_bytes domain) (head_packet flags)) plain-IsWire
          (subst IsWritable e (init_packet-IsWritable flags domain workstation version d w)) in
      (r.0, ap (to_bytes plain nc) e ∙ r.1, r.2)

  unfoldable Served : Wire → Type 0
  Served wire =
      (out : Bytes) × (init_bytes wire nc msg ≡ ok out)
      × (field_at wire 16 out ≡ done (as_bytes domain))
      × (field_at wire 24 out ≡ done (as_bytes workstation))

  Served-plain : Served plain
  unfolding Served init_bytes
  Served-plain =
      let a = domain_plain in
      let b = workstation_plain in
      let same : b.0 ≡ a.0 = cc in
      (a.0, a.1, a.2, subst (λ out. field_at plain 24 out ≡ done (as_bytes workstation)) same b.2)

  -- An initial message with an origin whose names fit 16 bits of length is written, and a server finds the
  -- domain through the field at byte 16 and the workstation through the field at byte 24.
  pub init_bytes_lem :
      (wire : Wire)
      → IsWire wire
      → (out : Bytes) × (init_bytes wire nc (record {
        flags = flags;
        origin = some (record { workstation = workstation; domain = domain });
        version = version;
      })
          ≡ ok out)
        × (field_at wire 16 out ≡ done (as_bytes domain))
        × (field_at wire 24 out ≡ done (as_bytes workstation))
  unfolding Served
  init_bytes_lem wire is_wire = of_plain Served wire is_wire Served-plain
