-- ===== src/Codec/Scopes/Tests.antt =====
-- A run of both passes' theorem on one packet.
use wirespec.Base.{◌^◌, ◌<◌, ◌≡◌, List, [], All}
use wirespec.Base.Outcome.{ok, ◌>>=◌}
use wirespec.Sema.Types.{Endianness}
use wirespec.Layout.Ir.{LayoutField}
use wirespec.Layout.Bitgroup.Runs.{bits_left}
use wirespec.Layout.Bitgroup.Tiles.{IsPositive}
use wirespec.Layout.Bitgroup.Tests.{one_group, three_IsPositive, three_small}
use wirespec.Layout.Lower as Layout
use wirespec.Layout.Lower.Tests.{three_packet, three_layout, three_lowered, three_laid_out}
use wirespec.Codec.Ir.{CodecField, ScopeKind}
use wirespec.Codec.Checksum.{synthesize_checksum_plan}
use wirespec.Codec.Lower.{lower_items}
use wirespec.Codec.Lower.Strategies.{IsSized}
use wirespec.Codec.Scopes.{lower_packet}
use wirespec.Codec.Scopes.Pipeline.{ArePlanned, lower_packet-ArePlanned}

abbrev fields : List LayoutField
fields = Layout.lower_fields three_packet.fields Endianness.big

fields-IsSized : All (λ f. IsSized f.ty) three_packet.fields
fields-IsSized = (tt, (tt, (tt, tt)))

fields-IsPositive : All IsPositive fields
fields-IsPositive = rw three_lowered three_IsPositive

fields_small : bits_left fields < 2 ^ 16
fields_small = rw three_lowered three_small

lower_packet-ArePlanned_example :
    (cs : List CodecField) × ArePlanned [] Endianness.big one_group 0 three_packet.fields cs
    × (lower_packet [] three_layout ≡ (
        lower_items [] [] [] [] >>= λ items. ok (record {
          scope_id = three_packet.packet_id;
          name = three_packet.name;
          fields = cs;
          items = items;
          checksum_plan = synthesize_checksum_plan cs ScopeKind.packet three_packet.name;
        })))
lower_packet-ArePlanned_example =
    lower_packet-ArePlanned [] three_packet Endianness.big three_layout fields-IsSized
      fields-IsPositive fields_small three_laid_out
