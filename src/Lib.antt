-- ===== src/Lib.antt =====
-- Verification library of the autonomous game agent: a hierarchical agent that plays a game from what is
-- visible on screen. A planner names a goal and a universal skill; the Manager grounds it in visible
-- sprites, schedules it as a task and runs it; the Body proposes primitive actions; the guarded executor
-- sends them; independent verifiers judge the outcome; and only their verdicts, or a stop of the Manager,
-- close a task.
--
-- Which file models which part:
--   Observation         src/fh_agent/observation/schemas.py
--   Body/Actions        src/fh_agent/body/primitive_actions.py
--   Body/Skills         src/fh_agent/body/skills (continue_dialogue, interact_visible, basic_reach_target)
--   Body/SafeReach      src/fh_agent/body/safety_filter.py and skills/safe_reach_target.py
--   Game/InputExecutor  src/fh_agent/game/input_executor.py: `execute` and its guards, one call as a function
--                       of the answers of clock, stop check, window and backend; Trace has sequences of calls
--   Game/EmergencyStop  src/fh_agent/game/emergency_stop.py
--   Verifier            src/fh_agent/verifier: the three verifiers, as functions of two observations
--   Manager/TargetRef   src/fh_agent/manager/target_ref.py and skill_target_requirements.py, and the skill
--                       names of src/fh_agent/skill_capabilities.py
--   Manager/Reward      src/fh_agent/manager/reward_profiles.py and verified_reward.py
--   Manager/Task        the records of src/fh_agent/manager/task_spec.py and runtime_stop.py
--   Manager/Scheduler   src/fh_agent/manager/scheduler.py: a method takes the scheduler and returns its
--                       answer or error with the scheduler after it; Steps makes them one step function
--   Manager/Events      src/fh_agent/manager/task_events.py and event_sink.py
--   Manager/EventLog    src/fh_agent/memory/event_log.py, as far as the skill runner appends to it
--   Manager/SkillContract  src/fh_agent/manager/skill_contracts.py
--   Manager/SkillRunner src/fh_agent/manager/skill_runner.py: `SkillRunner.run` over a world with two calls,
--                       observe and execute; Wired instantiates it with the sequence of
--                       src/fh_agent/observation/source.py and the executor of Game
--   Manager/Orchestrator   src/fh_agent/manager/orchestrator.py; submit_planner_output is in Manager/Intake
--   Manager/Grounding   src/fh_agent/manager/grounding.py and grounding_request_builder.py
--   Manager/TaskManager src/fh_agent/manager/task_manager.py: targets and evidence, and in Create the creation
--                       of a task from a plan; Manager/Capabilities is src/fh_agent/skill_capabilities.py
--   Manager/Intake      src/fh_agent/manager/cortex_submission.py and grounded_cortex_submission.py
--   Manager/HierarchicalStep  src/fh_agent/manager/hierarchical_step.py, with observation/primed_source.py
--   Manager/MockCompletion  src/fh_agent/manager/mock_completion.py
--   Manager/Catalog     src/fh_agent/manager/skill_catalog.py and verifier_catalog.py
--   Manager/TaskExecutor   src/fh_agent/manager/task_executor.py
--   Manager/Replan      src/fh_agent/manager/replan_context.py and replan_loop.py
--   Planner/Scan, Hidden   src/fh_agent/planner/planner_output.py: the scans for direct controls and hidden state
--   Planner/Contract    the validators there that run before the fields of an output are read
--   Planner/Output      the planner's output there, its constraints and its dump
--   Planner/Notes, Context  src/fh_agent/planner/context.py, for a planning call
--   Planner/Cortex      src/fh_agent/planner/cortex.py: `plan_next_goal`; the memory summary is that of Manager/Replan
--   Bridge/Feed         src/fh_agent/bridge/jsonl_payload_source.py; Order has appends and reads in any order
--   Bridge/Snapshot, Relay  snapshot_request.py, snapshot_response.py and snapshot_relay.py there; an append may break
--                       off after some bytes, and Keys sorts the keys as the JSON writer is told to
--   Bridge/Sanitizer, Firewall  sanitizer.py and firewall.py there
--   Bridge/Sprites      src/fh_agent/observation/visible_sprite_normalization.py
--   Bridge/Adapter, Source  src/fh_agent/bridge/bridge_server.py and observation_source.py
--   Planner/Traversal   what the scans of planner and bridge share, and their completeness
--   Prelude, Samples    shared helpers, and the data of the tests
--
-- Conventions. A pydantic constructor that raises is a Boolean test of the record, or a call that raises.
-- Numbers are natural numbers, and screen coordinates integers. A float that is only compared is kept as a
-- whole number of units of 2^-1074, a reward weight as a whole number of quarters, and the floats of the
-- clock and of the distance are a parameter. Time stamps are left out, or given by the caller. The loops
-- are recursions on the steps, the step IDs or the elements that are left, so no fuel is needed.
--
-- Parameters that stand for other code: Python's `str.lower`, the digests in IDs, pydantic's reading of fields
-- from raw data, decoding UTF-8 and reading and writing JSON, the answers of clock, focus guard, stop check and
-- backend, the model client, and the planner, which a submitter takes as a protocol.
--
-- What is not modelled: perception and the windows (external programs), the texts of the prompts and the call
-- of a reflection, reading the event log back, the SQLite stores, the reinforcement learning experiments, the
-- evaluations, the research atlas and the command line; nor the hosts that compose bridge and capture.
pub mod Body
pub mod Bridge
pub mod Game
pub mod Manager
pub mod Observation
pub mod Planner
pub mod Prelude
pub mod Samples
pub mod Verifier
