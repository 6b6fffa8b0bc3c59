-- ===== src/Client/Framing.antt =====
-- The frames of client and server (sendreceive.go, server.go): each side reads what the other has written.
use gologix.Base.{◌<◌, ◌≡◌, refl, ◌++◌, length, append_assoc}
use gologix.Base.Result.{ok}
use gologix.Wire.{Bytes}
use gologix.Wire.RoundTrip.{read_u16-put, read_u32-put, read_u64-put, read_full-append}
use gologix.Server.Messages.{EipHeader, header_bytes, read_header}
use gologix.Client.{recv_data}

-- The fields fit their types.
pub record IsHeader (h : EipHeader) : Type 0 where
  pub command_fits : h.command < 65536
  pub length_fits : h.length < 65536
  pub session_handle_fits : h.session_handle < 4294967296
  pub status_fits : h.status < 4294967296
  pub context_fits : h.context < 18446744073709551616
  pub options_fits : h.options < 4294967296

pub read_header-bytes :
    (h : EipHeader) (more : Bytes)
    → IsHeader h
    → read_header (header_bytes h ++ more) ≡ ok (h, more)
unfolding read_header header_bytes
read_header-bytes h more f =
    rw
      (
        read_u16-put h.command _ f.command_fits,
        read_u16-put h.length _ f.length_fits,
        read_u32-put h.session_handle _ f.session_handle_fits,
        read_u32-put h.status _ f.status_fits,
        read_u64-put h.context _ f.context_fits,
        read_u32-put h.options _ f.options_fits,
      )
      refl

-- A frame whose header counts its bytes.
pub recv_data-bytes :
    (h : EipHeader) (content more : Bytes)
    → IsHeader h
    → h.length ≡ length content
    → recv_data ((header_bytes h ++ content) ++ more) ≡ ok ((h, content), more)
unfolding recv_data
recv_data-bytes h content more f e =
    rw
      (
        append_assoc,
        read_header-bytes h (content ++ more) f,
        read_full-append h.length content more e,
      )
      refl
