-- ===== src/Keys/Texts.antt =====
-- The texts of the errors of internal/keys/keys.go, with those of internal/bech32/bech32.go that
-- it passes on.
use sentnodes_agent.Base.Text.{Text, codes}
use sentnodes_agent.Bech32.{ConvertError, invalid_data_range, invalid_padding}
use sentnodes_agent.Keys.{
  KeyError, bad_tag, bad_varint, bad_length, length_overrun, unsupported_wire, field_not_found,
  no_local_key, unexpected_length,
}
use sentnodes_agent.Keys.Open.{
  OpenError, unsupported_backend, no_ring, no_item, bad_record, bad_address,
}

abbrev pub key_error_text : KeyError → Text
key_error_text bad_tag = codes "bad protobuf tag"
key_error_text bad_varint = codes "bad varint"
key_error_text bad_length = codes "bad length"
key_error_text length_overrun = codes "length overrun"
key_error_text unsupported_wire = codes "unsupported wire type"
key_error_text field_not_found = codes "field not found"
key_error_text no_local_key = codes "keyring record has no local key (ledger/offline not supported)"
key_error_text unexpected_length = codes "unexpected private key length"

abbrev pub convert_error_text : ConvertError → Text
convert_error_text invalid_data_range = codes "invalid data range"
convert_error_text invalid_padding = codes "invalid padding"

unfoldable pub open_error_text : OpenError → Text
open_error_text unsupported_backend = codes "only keyring backend 'test' is supported"
open_error_text (no_ring e) = e
open_error_text (no_item e) = e
open_error_text (bad_record e) = key_error_text e
open_error_text (bad_address e) = convert_error_text e
