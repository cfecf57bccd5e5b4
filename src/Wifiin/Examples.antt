-- ===== src/Wifiin/Examples.antt =====
-- The theorems on the tunnel protocol, each at a small packet, stream or text.
use kfadapter.Base.{◌≤◌, ◌≡◌, refl, true, List, [], ◌∷◌, ◌++◌, none, some, arith, replicate, length}
use kfadapter.Base.Bytes.{Bytes, codes}
use kfadapter.Base.Text.{split}
use kfadapter.Wifiin.Uot.{ok, uot_address_length, write_socks_datagram, read_socks_datagram}
use kfadapter.Wifiin.Uot.RoundTrip.{read-server_frame, read-write_socks_datagram, server_frame}
use kfadapter.Wifiin.Uot.Reading.{IsDatagram, read_socks_datagram-IsDatagram}
use kfadapter.Wifiin.Provider.{
  provider_extension_for_profile, provider_extension_identity, valid_provider_extension,
  valid_provider_extension_for_profile, valid_text, bar,
}
use kfadapter.Wifiin.Provider.Canonical.{provider_extension-valid, valid_provider_extension-built}
use kfadapter.Wifiin.Header as Header
use kfadapter.Wifiin.Header.{
  derive_key, header_plaintext, valid_ascii_host, new_outbound_header_with_iv,
}
use kfadapter.Wifiin.Header.Opening.{Opened, open_packet, open-new_outbound_header}
use kfadapter.Wifiin.Handshake.{Chunk, Reader, read_ack, new_handshake_reader}
use kfadapter.Wifiin.Handshake.Stream.{unread}
use kfadapter.Wifiin.Handshake.Fragments.{read_ack-new_handshake_reader}

-- One byte for 127.0.0.1:53, and the same with the upper half of the type byte set.
abbrev datagram : Bytes
datagram = 0 ∷ 0 ∷ 0 ∷ 1 ∷ 127 ∷ 0 ∷ 0 ∷ 1 ∷ 0 ∷ 53 ∷ 9 ∷ []

abbrev frame : Bytes
frame = 0 ∷ 10 ∷ 1 ∷ 127 ∷ 0 ∷ 0 ∷ 1 ∷ 0 ∷ 53 ∷ 0 ∷ 7 ∷ 9 ∷ []

abbrev marked_address : Bytes
marked_address = 0x31 ∷ 127 ∷ 0 ∷ 0 ∷ 1 ∷ 0 ∷ 53 ∷ []

datagram_written : write_socks_datagram 7 datagram ≡ ok frame
unfolding write_socks_datagram uot_address_length
datagram_written = refl

read-server_frame_example :
    read_socks_datagram 64 (server_frame 7 marked_address (9 ∷ []) ++ (5 ∷ []))
    ≡ ok (datagram, 7, 5 ∷ [])
unfolding uot_address_length
read-server_frame_example =
    read-server_frame 64 7 marked_address (9 ∷ []) (5 ∷ []) refl (omega arith) (omega arith)
      (omega arith)

read-write_socks_datagram_example :
    read_socks_datagram 64 (frame ++ (5 ∷ [])) ≡ ok (datagram, 7, 5 ∷ [])
read-write_socks_datagram_example =
    read-write_socks_datagram 64 7 datagram frame (5 ∷ []) (omega arith) (omega arith)
      datagram_written

datagram_read : read_socks_datagram 64 (0 ∷ 0 ∷ (frame ++ (5 ∷ []))) ≡ ok (datagram, 7, 5 ∷ [])
unfolding read_socks_datagram uot_address_length
datagram_read = refl

read_socks_datagram-IsDatagram_example :
    IsDatagram 64 (0 ∷ 0 ∷ (frame ++ (5 ∷ []))) datagram (5 ∷ [])
read_socks_datagram-IsDatagram_example =
    read_socks_datagram-IsDatagram 64 (0 ∷ 0 ∷ (frame ++ (5 ∷ []))) datagram 7 (5 ∷ [])
      datagram_read

abbrev extension : Bytes
extension = codes "|t|cc.fancast.major|o|u|MAC|1.0.46"

extension_built :
    provider_extension_for_profile (codes "ios") (codes "t") (codes "o") (codes "u")
    ≡ some extension
unfolding provider_extension_for_profile provider_extension_identity valid_text
extension_built = refl

extension_valid : valid_provider_extension_for_profile (codes "ios") extension ≡ true
extension_valid =
    (provider_extension-valid (codes "ios") (codes "t") (codes "o") (codes "u") extension
      extension_built).0

valid_provider_extension-built_example :
    (t : Bytes) × (o : Bytes) × (u : Bytes) × (provider_extension_for_profile (codes "ios") t o u
      ≡ some extension)
valid_provider_extension-built_example =
    valid_provider_extension-built (codes "ios") extension extension_valid

-- A cipher that adds nothing, and a digest of sixteen bytes.
abbrev plain_cipher : Bytes → Bytes → Bytes → Bytes
plain_cipher key iv text = text

abbrev sample_md5 : Bytes → Bytes
sample_md5 text = replicate 16 (length text)

abbrev sample_key : Bytes
sample_key = replicate 32 1

abbrev sample_iv : Bytes
sample_iv = replicate 16 2

abbrev sample_host : Bytes
sample_host = codes "example.net"

abbrev sample_packet : Bytes
sample_packet = 3 ∷ 0 ∷ 61 ∷ (sample_iv ++ (sample_host ++ (extension ++ (1 ∷ 187 ∷ []))))

packet_built :
    new_outbound_header_with_iv plain_cipher sample_key sample_host 443 extension 3 sample_iv
    ≡ Header.ok sample_packet
unfolding new_outbound_header_with_iv header_plaintext valid_ascii_host valid_provider_extension
    valid_provider_extension_for_profile valid_text provider_extension_identity split
packet_built = refl

open-new_outbound_header_example :
    (o : Opened) × (open_packet sample_packet ≡ some o)
    × (o.outer ≡ 3)
    × (o.iv ≡ sample_iv)
    × (o.port ≡ 443)
    × (length sample_packet ≤ 65540)
    × ((rest : Bytes) × (extension ≡ bar ∷ rest)
        × (split bar (plain_cipher sample_key o.iv o.ciphertext) ≡ sample_host ∷ split bar rest))
open-new_outbound_header_example =
    open-new_outbound_header plain_cipher plain_cipher sample_key sample_host 443 extension 3
      sample_iv sample_packet (λ k v p. refl) (λ k v p. refl) (omega arith) packet_built

-- The acknowledgement in two chunks, with two bytes of the stream behind it.
abbrev sample_chunks : List Chunk
sample_chunks =
    record { bytes = 0 ∷ []; error = none }
    ∷ record { bytes = 0 ∷ 0 ∷ 8 ∷ 9 ∷ []; error = none }
    ∷ []

read_ack-new_handshake_reader_example :
    (r : Reader) × (read_ack (new_handshake_reader sample_chunks) ≡ some (none, r))
    × (unread r ≡ 8 ∷ 9 ∷ [])
read_ack-new_handshake_reader_example =
    read_ack-new_handshake_reader sample_chunks (8 ∷ 9 ∷ [])
      (omega arith, refl, (omega arith, refl, tt)) refl

-- The acknowledgement, an IV and two bytes more, in two chunks.
abbrev iv_chunks : List Chunk
iv_chunks =
    record { bytes = 0 ∷ []; error = none }
    ∷ record { bytes = 0 ∷ 0 ∷ (sample_iv ++ (8 ∷ 9 ∷ [])); error = none }
    ∷ []
