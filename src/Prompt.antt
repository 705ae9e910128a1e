-- ===== src/Prompt.antt =====
-- agent_room/prompt: layers of text, grouped into messages.
pub mod Builder
pub mod Grouping
pub mod Developer
pub use Builder.{LayerRole, Layer, system_layer, human_layer, emit}
unfoldable pub use Builder.{group_runs, group_consecutive, rendered_layers, build, new_builder}
