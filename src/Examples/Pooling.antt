-- ===== src/Examples/Pooling.antt =====
-- awaitTermination of src/ThreadPool.cpp with one worker that ends late.
use cpp_statecharts.Base.{◌≡◌, arith, ◌≤◌, true, [], ◌∷◌}
use cpp_statecharts.ThreadPool.Termination.{await_termination, await_termination_late}

await_termination_late_example :
    let a = await_termination 30 5 (record { joinable = true; ends_at = 90 } ∷ []) in
    (a.all_finished ≡ true) × (90 ≤ a.returned_at)
await_termination_late_example = await_termination_late 30 5 90 (omega arith)
