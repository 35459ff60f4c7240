-- ===== src/Tests/OnWire.antt =====
-- The theorem on the way from SigmaStudio to SPI at two packets.
use sigmadsp.Prelude.{◌≤◌, ℕ, refl, true, List, [], arith, length, All}
use sigmadsp.Conversion.{to_bytes}
use sigmadsp.Conversion.Fixpoint.Dyadic.{dyadic_ops}
use sigmadsp.Header.{get_item, contains, lookup, same_name}
use sigmadsp.Header.Codec.{encode}
use sigmadsp.Header.Items.{value_of}
use sigmadsp.Header.Generator.Adau1x01.{generator, adau1x01-IsGenerator}
use sigmadsp.Protocol.Spi.{write_spi, spi_hardware, max_spi_bytes}
use sigmadsp.Protocol.Framing.{send_all}
use sigmadsp.Protocol.SpiFrames.{spi_framing}
use sigmadsp.Protocol.I2cMessages.{i2c_framing}
use sigmadsp.Protocol.I2c.{i2c_hardware, write_i2c, max_i2c_bytes}
use sigmadsp.Dsp.{Dsp}
use sigmadsp.Dsp.Adau1x0x.{adau1x0x}
use sigmadsp.Server.Packets.{payload}
use sigmadsp.Server.{handle}
use sigmadsp.Backend.{WorkerState, sigma_studio_worker}
use sigmadsp.Backend.Worker.{EndsAs}
use sigmadsp.Backend.Wire.{AreFramesOf, stream-frames, stream-messages}
use sigmadsp.Tests.OnDsp.{dyadic_volume}
use sigmadsp.Tests.OnProtocol.{spi_log, i2c_log}
use sigmadsp.Tests.OnServer.{connected, two_packets, write_packet-IsFrame}

abbrev dsp : Dsp dyadic_ops (spi_hardware spi_log)
dsp = adau1x0x (spi_hardware spi_log) dyadic_ops true

abbrev handed : WorkerState dyadic_ops dyadic_volume (spi_hardware spi_log) dsp
handed = record {
  receive_queue = (handle generator 3 connected).1.receive_queue;
  send_queue = [];
  device = [];
}

stream-frames_example :
    (frames : List (List ℕ)) × AreFramesOf
      (spi_hardware spi_log)
      (spi_framing spi_log)
      two_packets
      frames
    × All (λ (f : List ℕ). length f ≤ max_spi_bytes) frames
    × EndsAs dyadic_ops dyadic_volume
        (spi_hardware spi_log)
        dsp
        (sigma_studio_worker dyadic_ops dyadic_volume (spi_hardware spi_log) dsp handed)
        (send_all (write_spi spi_log) frames [])
unfolding encode to_bytes payload value_of get_item contains lookup same_name
stream-frames_example =
    stream-frames generator adau1x01-IsGenerator dyadic_ops spi_log dyadic_volume dsp two_packets 3
      connected handed
      (write_packet-IsFrame 0 (omega arith), (write_packet-IsFrame 1 (omega arith), tt))
      (omega arith, (omega arith, tt)) (omega arith, (omega arith, (omega arith, tt))) refl
      (omega arith) refl refl

abbrev i2c_dsp : Dsp dyadic_ops (i2c_hardware i2c_log)
i2c_dsp = adau1x0x (i2c_hardware i2c_log) dyadic_ops true

abbrev i2c_handed : WorkerState dyadic_ops dyadic_volume (i2c_hardware i2c_log) i2c_dsp
i2c_handed = record {
  receive_queue = (handle generator 3 connected).1.receive_queue;
  send_queue = [];
  device = [];
}

stream-messages_example :
    (frames : List (List ℕ)) × AreFramesOf
      (i2c_hardware i2c_log)
      (i2c_framing i2c_log)
      two_packets
      frames
    × All (λ (f : List ℕ). length f ≤ max_i2c_bytes) frames
    × EndsAs dyadic_ops dyadic_volume
        (i2c_hardware i2c_log)
        i2c_dsp
        (sigma_studio_worker dyadic_ops dyadic_volume (i2c_hardware i2c_log) i2c_dsp i2c_handed)
        (send_all (write_i2c i2c_log) frames [])
unfolding encode to_bytes payload value_of get_item contains lookup same_name
stream-messages_example =
    stream-messages generator adau1x01-IsGenerator dyadic_ops i2c_log dyadic_volume i2c_dsp
      two_packets 3 connected i2c_handed
      (write_packet-IsFrame 0 (omega arith), (write_packet-IsFrame 1 (omega arith), tt))
      (omega arith, (omega arith, tt)) (omega arith, (omega arith, (omega arith, tt))) refl
      (omega arith) refl refl
