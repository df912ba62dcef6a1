-- ===== src/Engine/SplitRound/Layer.antt =====
-- src/engine/memory-layer.ts: the layer of memory that a promoted lesson is written to.
use Prim.Native.String.{String}
use corellia.Prelude.{none, some, ◌≡◌, refl}
use corellia.Prelude.Text.{after, skip_spaces, is_space, lower}
use corellia.Contract.Goal.{MemoryLayer, project, type, global}

pub record LayerDecision : Type 0 where
  pub layer : MemoryLayer
  pub content : String

-- `/^\s*\[(type|global)\]\s*/i`
unfoldable pub choose_memory_layer : String → LayerDecision
choose_memory_layer lesson =
    let tagged = skip_spaces lesson in
    elim (after lower "[type]" tagged) [
      | some rest ↦ record { layer = type; content = skip_spaces rest }
      | none ↦ elim (after lower "[global]" tagged) [
        | some rest ↦ record { layer = global; content = skip_spaces rest }
        | none ↦ record { layer = project; content = lesson }
      ]
    ]

layers :
    (choose_memory_layer " [Type]  pin the port"
      ≡ record { layer = type; content = "pin the port" })
    × (choose_memory_layer "typed [global]"
        ≡ record { layer = project; content = "typed [global]" })
unfolding choose_memory_layer skip_spaces is_space lower after
layers = (refl, refl)
