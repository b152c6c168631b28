-- ===== src/RunResults.antt =====
-- app/run_results.py: how a Run's durable result grows.
pub mod Texts
pub mod Coerce
mod Initial
mod Tools
mod Finish
pub mod Bounds
pub mod Outcomes
pub use Coerce.{coerce_run_result}
pub use Initial.{build_initial_result, apply_context_usage}
pub use Tools.{weather_tool, guide_tool, apply_tool_result}
unfoldable pub use Finish.{
  answer_entries, answer_sources, completed_with, complete_result, fail_result,
}
