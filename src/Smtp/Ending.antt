-- ===== src/Smtp/Ending.antt =====
-- Every turn of a loop of the server takes something from the input, so no loop of the model runs
-- out of the fuel that it is given, and a connection whose input ends comes to an end.
pub mod Reads
pub mod Loops
pub mod Skip
pub mod Steps
pub mod Serve
